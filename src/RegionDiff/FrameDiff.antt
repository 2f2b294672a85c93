-- ===== src/RegionDiff/FrameDiff.antt =====
-- Comparing two downloads of one format frame by frame (modules/regiondiff/diff.go, frameDiff).
pub mod Sound
pub mod Cuts
use solstein.Base.{
  ℕ, zero, suc, ◌+◌, ◌-◌, ◌*◌, ◌/◌, max, Bool, true, false, not, ◌&&◌, ◌||◌, Option, none, some,
  List, [], ◌∷◌, ◌++◌, ◌==◌, ltb, leb, if◌then◌else◌, length,
}
use solstein.Mp3.Header.{duration}
use solstein.Mp3.Frame.{Frame, File, file_duration}
use solstein.RegionDiff.Run.{Run, Segment, Options, Result, unanchored_minimum}
use solstein.RegionDiff.Align.{frame_hashes, align, verify}
use solstein.RegionDiff.Edges.{to_segment_boundaries}
use solstein.RegionDiff.Repeats.{remove_repeats}
use solstein.RegionDiff.Markers.{trim_markers}
use solstein.RegionDiff.Segments.{
  Verdict, identical, no_shared_frames, segments, durations, check, other_gaps,
}
use solstein.RegionDiff.Write.{write}

abbrev pub is_empty {ℓ} : {A : Type ℓ} → List A → Bool
is_empty [] = true
is_empty (_ ∷ _) = false

-- The length of the first frame; a parsed file has one.
abbrev pub frame_duration_of : File → ℕ
frame_duration_of file = elim file.frames [ [] ↦ 0 | frame ∷ _ ↦ duration frame.header ]

-- The runs trimmed to segment boundaries that are long enough.
unfoldable pub long_enough : List Frame → ℕ → ℕ → List Run → List Run
long_enough frames minimum unanchored [] = []
long_enough frames minimum unanchored (r ∷ rs) =
    let rest = long_enough frames minimum unanchored rs in
    elim (to_segment_boundaries r frames unanchored) [
      | none ↦ rest
      | some trimmed ↦ if leb minimum trimmed.length then trimmed ∷ rest else rest
    ]

unfoldable pub total_length : List Run → ℕ
total_length [] = 0
total_length (r ∷ rs) = r.length + total_length rs

as_segments : ℕ → List Run → List Segment
as_segments frame_duration [] = []
as_segments frame_duration (r ∷ rs) =
    record { start = r.home; end = r.home + r.length; duration = r.length * frame_duration }
    ∷ as_segments frame_duration rs

abbrev pub no_result : Result
no_result = record {
  output = [];
  kept = [];
  removed = [];
  markers = [];
  repeats = [];
  home_duration = 0;
  other_duration = 0;
  duration = 0;
  by_audio = false;
  other_extra = 0;
  other_breaks = 0;
}

-- Whole frames in the shortest run that counts as show, at least one.
abbrev pub minimum_frames : Options → ℕ → ℕ
minimum_frames options frame_duration =
    max ((options.min_shared + frame_duration - 1) / frame_duration) 1

-- The kept and removed segments of the runs, in a result.
abbrev pub with_segments : File → List Run → Result → Result
with_segments home kept result = record result {
  kept = (segments kept home).0;
  removed = (segments kept home).1;
  duration = durations (segments kept home).0;
}

-- Repeats and markers are removed where the options say so; the last two lists are theirs.
unfoldable pub edit :
    (List ℕ → ℕ) → (ℕ → List ℕ) → File → File → Options → List Run → List Run × List Run × List Run
edit hash visits home other options kept =
    let frame_duration = frame_duration_of home in
    let (shown, repeats) =
      if options.remove_repeated_ads
      then remove_repeats kept home other (frame_hashes hash home) (frame_hashes hash other)
          (minimum_frames options frame_duration) frame_duration
      else (kept, []) in
    let (left, markers) =
      if options.trim_break_markers
      then trim_markers visits shown home frame_duration
      else (shown, []) in
    (left, repeats, markers)

-- The checks, and the output.
unfoldable pub conclude : File → Options → Result → Result × Option Verdict
conclude home options result = elim (check result options) [
  | some verdict ↦ (result, some verdict)
  | none ↦
      if is_empty result.removed
      then (record result { output = home.bytes }, none)
      else (let (output, carried) = write home result.kept in
          (record result { output = output; duration = result.duration + carried }, none))
]

-- The rest of the comparison, from the runs that count as show on.
unfoldable pub compare_kept :
    (List ℕ → ℕ) → (ℕ → List ℕ) → File → File → Options → List Run → Result × Option Verdict
unfolding edit conclude as_segments
compare_kept hash visits home other options kept =
    let frame_duration = frame_duration_of home in
    let first = with_segments home kept (record no_result {
      home_duration = file_duration home;
      other_duration = file_duration other;
    }) in
    let (left, repeats, markers) = edit hash visits home other options kept in
    let edited = record first {
      repeats = as_segments frame_duration repeats;
      markers = as_segments frame_duration markers;
    } in
    let placed =
      if not (is_empty repeats) || not (is_empty markers)
      then with_segments home left edited
      else edited in
    let (extra, breaks) = other_gaps left (length other.frames) frame_duration in
    if is_empty first.removed && total_length kept == length other.frames
    then (first, some identical)
    else conclude home options (record placed { other_extra = extra; other_breaks = breaks })

unfoldable pub frame_diff :
    (List ℕ → ℕ) → (ℕ → List ℕ) → File → File → Options → Result × Option Verdict
unfolding compare_kept long_enough total_length
frame_diff hash visits home other options =
    let frame_duration = frame_duration_of home in
    let runs = verify home other (align (frame_hashes hash home) (frame_hashes hash other)) in
    if is_empty runs
    then (no_result, some no_shared_frames)
    else compare_kept hash visits home other options (
        long_enough home.frames (minimum_frames options frame_duration)
          (unanchored_minimum / frame_duration) runs)
