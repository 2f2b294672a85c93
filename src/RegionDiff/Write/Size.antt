-- ===== src/RegionDiff/Write/Size.antt =====
-- How long the output is (modules/regiondiff/diff.go, write).
use solstein.Base.{
  ℕ, ◌+◌, ◌-◌, ◌≤◌, ◌≡◌, refl, ◌∙◌, List, [], ◌∷◌, ◌++◌, length, length-append, slice, drop, All,
  All-take, All-drop, some, arith,
}
use solstein.Mp3.Header.Ranges.{parse_header-IsDecoded}
use solstein.Mp3.Frame.{Frame, File, frame_bytes, total_duration}
use solstein.Mp3.Parse.{ok, parse}
use solstein.Mp3.Parse.Layout.{Placed, frames_size}
use solstein.Mp3.Parse.Result.{parse-IsParsed, length-frame_bytes}
use solstein.Mp3.Silent.{silent_frame}
use solstein.Mp3.Silent.Laws.{length-silence}
use solstein.RegionDiff.Run.{Segment}
use solstein.RegionDiff.Write.{carriers, all_bytes, write_from, write}
use solstein.RegionDiff.Segments.Tiling.{total_duration-append}

-- A frame whose bytes are as many as its size says, and hold a header and a CRC.
abbrev IsWhole : File → Frame → Type 0
IsWhole file f = (length (frame_bytes file f) ≡ f.size) × (6 ≤ f.size)

big :
    (bytes : List ℕ) (from to : ℕ) (fs : List Frame)
    → Placed bytes from to fs
    → All (λ f. 6 ≤ f.size) fs
big bytes from to [] h = tt
big bytes from to (f ∷ fs) (a, (parsed, sized), c) =
    let decoded = parse_header-IsDecoded _ parsed in
    (omega (arith, decoded.size_pos), big bytes (f.offset + f.size) to fs c)

both :
    (file : File) (fs : List Frame)
    → All (λ f. length (frame_bytes file f) ≡ f.size) fs
    → All (λ f. 6 ≤ f.size) fs
    → All (IsWhole file) fs
both file [] h k = tt
both file (f ∷ fs) (a, b) (c, d) = ((a, c), both file fs b d)

parse-IsWhole :
    (bytes : List ℕ) {file : File} → parse bytes ≡ some (ok file) → All (IsWhole file) file.frames
parse-IsWhole bytes {file} e =
    let p = parse-IsParsed bytes e in
    both file file.frames (length-frame_bytes bytes e) (big bytes _ _ file.frames p.placed)

length-all_bytes :
    (bytes : Frame → List ℕ) (fs : List Frame)
    → All (λ f. length (bytes f) ≡ f.size) fs
    → length (all_bytes bytes fs) ≡ frames_size fs
unfolding all_bytes
length-all_bytes bytes [] h = refl
length-all_bytes bytes (f ∷ fs) (a, b) =
    omega (arith, length-append (bytes f) (all_bytes bytes fs), length-all_bytes bytes fs b)

whole-frames :
    (file : File) (fs : List Frame)
    → All (IsWhole file) fs
    → All (λ f. length (frame_bytes file f) ≡ f.size) fs
whole-frames file [] h = tt
whole-frames file (f ∷ fs) ((a, b), h) = (a, whole-frames file fs h)

whole-silent :
    (file : File) (fs : List Frame)
    → All (IsWhole file) fs
    → All (λ f. length (silent_frame file f) ≡ f.size) fs
unfolding silent_frame
whole-silent file [] h = tt
whole-silent file (f ∷ fs) ((a, b), h) =
    (length-silence f.header (frame_bytes file f) (omega arith) ∙ a, whole-silent file fs h)

-- The silent frames that are written before the segments, in order.
unfoldable pub silent_frames : File → ℕ → List Segment → List Frame
silent_frames file kept_up_to [] = []
silent_frames file kept_up_to (segment ∷ segments) =
    slice file.frames (carriers file.frames kept_up_to segment.start) segment.start
    ++ silent_frames file segment.end segments

abbrev pub kept_size : File → List Segment → ℕ
kept_size file [] = 0
kept_size file (segment ∷ segments) =
    frames_size (slice file.frames segment.start segment.end) + kept_size file segments

frames_size-append : (xs ys : List Frame) → frames_size (xs ++ ys) ≡ frames_size xs + frames_size ys
frames_size-append [] ys = omega arith
frames_size-append (x ∷ xs) ys = omega (arith, frames_size-append xs ys)

length-write_from :
    (file : File) (from : ℕ) (segments : List Segment)
    → All (IsWhole file) file.frames
    → length (write_from file from segments).0
      ≡ kept_size file segments + frames_size (silent_frames file from segments)
unfolding write_from silent_frames
length-write_from file from [] w = refl
length-write_from file from (segment ∷ segments) w =
    let first = carriers file.frames from segment.start in
    let carrying = slice file.frames first segment.start in
    let own = slice file.frames segment.start segment.end in
    let rest = (write_from file segment.end segments).0 in
    let some' =
      All-take (IsWhole file) (segment.start - first) (drop first file.frames)
        (All-drop (IsWhole file) first file.frames w) in
    let all' =
      All-take (IsWhole file) (segment.end - segment.start) (drop segment.start file.frames)
        (All-drop (IsWhole file) segment.start file.frames w) in
    omega (
      arith,
      length-append (all_bytes (silent_frame file) carrying)
          (all_bytes (frame_bytes file) own ++ rest),
      length-append (all_bytes (frame_bytes file) own) rest,
      length-all_bytes (silent_frame file) carrying (whole-silent file carrying some'),
      length-all_bytes (frame_bytes file) own (whole-frames file own all'),
      length-write_from file segment.end segments w,
      frames_size-append carrying (silent_frames file segment.end segments),
    )

silent_duration :
    (file : File) (from : ℕ) (segments : List Segment)
    → (write_from file from segments).1 ≡ total_duration (silent_frames file from segments)
unfolding write_from silent_frames
silent_duration file from [] = refl
silent_duration file from (segment ∷ segments) =
    let carrying = slice file.frames (carriers file.frames from segment.start) segment.start in
    omega (
      arith,
      silent_duration file segment.end segments,
      total_duration-append carrying (silent_frames file segment.end segments),
    )

-- The output of a parsed file is the two tags, the kept frames and the silent frames: its length is
-- theirs together, and the silent frames' playing time is the one reported.
pub length-write :
    (bytes : List ℕ) (file : File) (kept : List Segment)
    → parse bytes ≡ some (ok file)
    → (length (write file kept).0
        ≡ length file.id3v2
          + kept_size file kept
          + frames_size (silent_frames file 0 kept)
          + length file.id3v1)
      × ((write file kept).1 ≡ total_duration (silent_frames file 0 kept))
unfolding write
length-write bytes file kept e =
    let w = parse-IsWhole bytes e in
    let body = (write_from file 0 kept).0 in
    (
      omega (
        arith,
        length-append file.id3v2 (body ++ file.id3v1),
        length-append body file.id3v1,
        length-write_from file 0 kept w,
      ),
      silent_duration file 0 kept,
    )
