-- ===== src/RegionDiff/Write.antt =====
-- Building the output (modules/regiondiff/diff.go: write, carriers).
pub mod Carriers
pub mod Size
use solstein.Base.{
  ℕ, zero, suc, ◌+◌, ◌-◌, Bool, ◌||◌, Option, none, some, List, [], ◌∷◌, ◌++◌, ltb, leb,
  if◌then◌else◌, length, get_elem?, slice,
}
use solstein.Mp3.Frame.{Frame, File, frame_bytes, main_data_size, total_duration}
use solstein.Mp3.Silent.{silent_frame}
use solstein.RegionDiff.Run.{Segment}

abbrev pub main_data_at : List Frame → ℕ → ℕ
main_data_at frames i = elim (get_elem? frames i) [ none ↦ 0 | some frame ↦ main_data_size frame ]

abbrev pub needs_at : List Frame → ℕ → ℕ
needs_at frames i = elim (get_elem? frames i) [ none ↦ 0 | some frame ↦ frame.main_data_begin ]

-- Back from `first`, at most `n` frames, until as many bytes are carried as are needed.
carry : List Frame → ℕ → ℕ → ℕ → ℕ → ℕ
carry frames need zero first carried = first
carry frames need (suc n) first carried =
    let before = carry frames need n (first - 1) (carried + main_data_at frames (first - 1)) in
    if ltb carried need then before else first

unfoldable pub carriers : List Frame → ℕ → ℕ → ℕ
unfolding carry
carriers frames removed_from start =
    if leb start removed_from || leb (length frames) start
    then start
    else carry frames (needs_at frames start) (start - removed_from) start 0

unfoldable pub all_bytes : (Frame → List ℕ) → List Frame → List ℕ
all_bytes bytes [] = []
all_bytes bytes (frame ∷ frames) = bytes frame ++ all_bytes bytes frames

-- The frames of the segments in order, each behind its silent frames, and how long those play.
unfoldable pub write_from : File → ℕ → List Segment → List ℕ × ℕ
unfolding carriers all_bytes
write_from file kept_up_to [] = ([], 0)
write_from file kept_up_to (segment ∷ segments) =
    let first = carriers file.frames kept_up_to segment.start in
    let carrying = slice file.frames first segment.start in
    let (rest, silent) = write_from file segment.end segments in
    (
      all_bytes (silent_frame file) carrying
          ++ (all_bytes (frame_bytes file) (slice file.frames segment.start segment.end) ++ rest),
      total_duration carrying + silent,
    )

unfoldable pub write : File → List Segment → List ℕ × ℕ
unfolding write_from
write file kept =
    let (body, silent) = write_from file 0 kept in (file.id3v2 ++ (body ++ file.id3v1), silent)
