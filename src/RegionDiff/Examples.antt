-- ===== src/RegionDiff/Examples.antt =====
-- Two small downloads of one show, with ads in different places, for the tests.
use solstein.Base.{ℕ, zero, suc, ◌+◌, none, List, [], ◌∷◌, ◌++◌, false, replicate}
use solstein.Mp3.Header.{Header, mpeg2}
use solstein.Mp3.Frame.{Frame, File}
use solstein.RegionDiff.Run.{Run, Options, default_options, Result}
use solstein.RegionDiff.Align.{mix, frame_hashes}
use solstein.RegionDiff.FrameDiff.{frame_diff}

abbrev pub header : Header
header = record {
  version = mpeg2;
  layer = 3;
  bitrate = 8;
  sample_rate = 24000;
  padding = false;
  protected = false;
  mono = false;
}

abbrev pub frame_with : ℕ → ℕ → List ℕ
frame_with begin value =
    0xff ∷ 0xf3 ∷ 0x14 ∷ 0 ∷ begin ∷ (replicate 16 7 ++ (value ∷ value ∷ value ∷ []))

-- A file of frames whose back pointers and payloads are given.
abbrev pub bytes_of : List (ℕ × ℕ) → List ℕ
bytes_of [] = []
bytes_of ((begin, value) ∷ fs) = frame_with begin value ++ bytes_of fs

abbrev pub frames_of : ℕ → List (ℕ × ℕ) → List Frame
frames_of offset [] = []
frames_of offset ((begin, value) ∷ fs) =
    record { offset = offset; size = 24; header = header; main_data_begin = begin }
    ∷ frames_of (offset + 24) fs

abbrev pub file_of : List (ℕ × ℕ) → File
file_of fs = record {
  bytes = bytes_of fs;
  id3v2 = [];
  info = none;
  frames = frames_of 0 fs;
  id3v1 = [];
  skipped = 0;
  truncated = 0;
}

-- `n` frames of a show, numbered from `value` on.
abbrev pub show : ℕ → ℕ → List (ℕ × ℕ)
show value zero = []
show value (suc n) = (0, value) ∷ show (value + 1) n

-- The home download has an ad in front, the other one behind.
abbrev pub home : File
home = file_of ((0, 200) ∷ (0, 201) ∷ show 1 18)

abbrev pub other : File
other = file_of (show 1 18 ++ (0, 210) ∷ [])

abbrev pub options : Options
options = record default_options { min_shared = 0 }

-- A hash that tells the frames apart: their last bytes.
abbrev pub hash : List ℕ → ℕ
hash bytes = mix 1 bytes

abbrev pub visits : ℕ → List ℕ
visits n = 0 ∷ 1 ∷ []

abbrev pub result : Result
result = (frame_diff hash visits home other options).0

-- The shared frames, as a run.
abbrev pub shared : Run
shared = record { home = 2; other = 0; length = 18 }

abbrev pub home_hashes : List ℕ
home_hashes = frame_hashes hash home

abbrev pub other_hashes : List ℕ
other_hashes = frame_hashes hash other
