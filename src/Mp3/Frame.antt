-- ===== src/Mp3/Frame.antt =====
-- Frames and files (mp3/mp3.go): a frame's bytes, its back pointer, and the info frame.
-- A slice that Go would refuse as out of range is cut short here.
use solstein.Base.{
  ℕ, ◌+◌, ◌-◌, ◌*◌, ◌/◌, ◌^◌, max, Bool, true, false, not, ◌&&◌, ◌||◌, Option, List, [], ◌∷◌, ◌==◌,
  ltb, leb, if◌then◌else◌, length, get_or, slice, bytes_equal,
}
use solstein.Mp3.Header.{Header, is_mpeg1, duration, side_info_size, main_data_offset}

pub record Frame : Type 0 where
  pub offset : ℕ
  pub size : ℕ
  pub header : Header
  pub main_data_begin : ℕ

pub record File : Type 0 where
  pub bytes : List ℕ
  pub id3v2 : List ℕ
  pub info : Option Frame
  pub frames : List Frame
  pub id3v1 : List ℕ
  pub skipped : ℕ
  pub truncated : ℕ

unfoldable pub main_data_size : Frame → ℕ
main_data_size frame = max (frame.size - main_data_offset frame.header) 0

unfoldable pub frame_bytes : File → Frame → List ℕ
frame_bytes file frame = slice file.bytes frame.offset (frame.offset + frame.size)

abbrev pub total_duration : List Frame → ℕ
total_duration [] = 0
total_duration (frame ∷ frames) = duration frame.header + total_duration frames

unfoldable pub file_duration : File → ℕ
file_duration file = total_duration file.frames

-- Layer III's back pointer: 9 bits in MPEG-1, 8 in the others.
unfoldable pub main_data_begin : List ℕ → Header → ℕ
main_data_begin frame header =
    let start : ℕ = if header.protected then 4 + 2 else 4 in
    if ltb (length frame) (start + 2)
    then 0
    else if is_mpeg1 header.version
    then get_or frame start 0 * 2 + get_or frame (start + 1) 0 / 2 ^ 7
    else get_or frame start 0

abbrev xing_tag : List ℕ
xing_tag = b'X' ∷ b'i' ∷ b'n' ∷ b'g' ∷ []

abbrev info_tag : List ℕ
info_tag = b'I' ∷ b'n' ∷ b'f' ∷ b'o' ∷ []

abbrev vbri_tag : List ℕ
vbri_tag = b'V' ∷ b'B' ∷ b'R' ∷ b'I' ∷ []

unfoldable pub is_info_frame : List ℕ → Header → Bool
is_info_frame frame header =
    let xing : ℕ =
      if header.protected then 4 + side_info_size header + 2 else 4 + side_info_size header in
    if not (header.layer == 3)
    then false
    else if leb (xing + 4) (length frame)
        && (bytes_equal (slice frame xing (xing + 4)) xing_tag
            || bytes_equal (slice frame xing (xing + 4)) info_tag)
    then true
    else leb (36 + 4) (length frame) && bytes_equal (slice frame 36 40) vbri_tag
