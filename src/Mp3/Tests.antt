-- ===== src/Mp3/Tests.antt =====
-- Runs of the MP3 reader on small files, and the theorems at those files.
use solstein.Base.{
  ℕ, ◌≡◌, refl, some, none, List, [], ◌∷◌, ◌++◌, false, replicate, length, arith, drop, All,
}
use solstein.Mp3.Header.{
  Header, mpeg2, parse_header, size, same_stream, side_info_size, main_data_offset,
}
use solstein.Mp3.Header.Ranges.{IsDecoded, parse_header-IsDecoded}
use solstein.Mp3.Frame.{Frame, File, frame_bytes, main_data_begin, is_info_frame}
use solstein.Mp3.Tags.{id3v2_length, has_id3v1}
use solstein.Mp3.Parse.{Parsed, ok, not_mp3, parse}
use solstein.Mp3.Parse.Result.{IsParsed, parse-IsParsed, length-frame_bytes}
use solstein.Mp3.Parse.Total.{parse_total}
use solstein.Mp3.Silent.{silence, crc16}
use solstein.Mp3.Silent.Laws.{drop-silence, main_data_begin-silence, length-silence}

-- An MPEG-2 Layer III frame of 24 bytes: 8 kbit/s at 24 kHz.
abbrev header_bytes : List ℕ
header_bytes = 0xff ∷ 0xf3 ∷ 0x14 ∷ 0 ∷ []

abbrev header : Header
header = record {
  version = mpeg2;
  layer = 3;
  bitrate = 8;
  sample_rate = 24000;
  padding = false;
  protected = false;
  mono = false;
}

abbrev frame_with : ℕ → ℕ → List ℕ
frame_with begin value = header_bytes ++ (begin ∷ (replicate 16 7 ++ replicate 3 value))

abbrev frame_from : ℕ → ℕ → Frame
frame_from offset begin = record {
  offset = offset;
  size = 24;
  header = header;
  main_data_begin = begin;
}

-- One stray byte, two frames, and the start of a third.
abbrev sample : List ℕ
sample = 1 ∷ (frame_with 0 5 ++ (frame_with 2 6 ++ header_bytes))

abbrev sample_file : File
sample_file = record {
  bytes = sample;
  id3v2 = [];
  info = none;
  frames = frame_from 1 0 ∷ frame_from 25 2 ∷ [];
  id3v1 = [];
  skipped = 1;
  truncated = 4;
}

sample_parsed : parse sample ≡ some (ok sample_file)
unfolding parse id3v2_length has_id3v1 parse_header size same_stream is_info_frame side_info_size
    main_data_begin
sample_parsed = refl

no_audio : parse (1 ∷ 2 ∷ 3 ∷ []) ≡ some not_mp3
unfolding parse id3v2_length has_id3v1
no_audio = refl

parse_header-IsDecoded_example : IsDecoded header
unfolding parse_header
parse_header-IsDecoded_example = parse_header-IsDecoded (frame_with 0 5) refl

parse-IsParsed_example : IsParsed sample sample_file
parse-IsParsed_example = parse-IsParsed sample sample_parsed

parse_total_example : (r : Parsed) × (parse sample ≡ some r)
parse_total_example = parse_total sample

length-frame_bytes_example :
    All (λ f. length (frame_bytes sample_file f) ≡ f.size) sample_file.frames
length-frame_bytes_example = length-frame_bytes sample sample_parsed

drop-silence_example :
    drop (main_data_offset header) (silence header (frame_with 2 6))
    ≡ drop (main_data_offset header) (frame_with 2 6)
unfolding main_data_offset
drop-silence_example = drop-silence header (frame_with 2 6) (omega arith)

main_data_begin-silence_example : main_data_begin (silence header (frame_with 2 6)) header ≡ 0
unfolding main_data_offset
main_data_begin-silence_example = main_data_begin-silence header (frame_with 2 6) (omega arith)

length-silence_example : length (silence header (frame_with 2 6)) ≡ length (frame_with 2 6)
length-silence_example = length-silence header (frame_with 2 6) (omega arith)

-- The CRC of "123456789" under MPEG's parameters.
crc_check : crc16 (49 ∷ 50 ∷ 51 ∷ 52 ∷ 53 ∷ 54 ∷ 55 ∷ 56 ∷ 57 ∷ []) ≡ 0xaee7
unfolding crc16
crc_check = refl
