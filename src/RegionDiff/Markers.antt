-- ===== src/RegionDiff/Markers.antt =====
-- Removing break markers (modules/regiondiff/diff.go, trimMarkers). The order in which Go ranges
-- over a map is a parameter: `visits n` lists the indexes of the n-th range, in any order.
pub mod Pieces
pub mod Kept
use solstein.Base.{
  ℕ, zero, suc, ◌+◌, ◌-◌, ◌*◌, ◌/◌, Bool, true, false, not, ◌&&◌, ◌||◌, Option, none, some, List,
  [], ◌∷◌, ◌++◌, ◌==◌, ltb, leb, if◌then◌else◌, length, get_elem?, bytes_equal,
}
use solstein.Mp3.Frame.{File}
use solstein.RegionDiff.Run.{Run, clean_at, max_marker, bytes_at}
use solstein.RegionDiff.Edges.{next_clean, last_clean}

pub record Piece : Type 0 where
  pub start : ℕ
  pub end : ℕ

piece_eq : Piece → Piece → Bool
piece_eq a b = a.start == b.start && a.end == b.end

-- An edge counts only next to removed audio or the file's ends.
open_start : Option ℕ → ℕ → Bool
open_start none start = true
open_start (some previous_end) start = ltb previous_end start

open_end : List Run → ℕ → Bool
open_end [] end = true
open_end (r ∷ _) end = ltb end r.home

abbrev end_of : Run → ℕ
end_of r = r.home + r.length

-- The whole segments at the edges of a run that are short enough to be markers.
pieces_of : File → ℕ → Bool → Bool → ℕ → ℕ → List Piece
pieces_of file longest at_start at_end start end =
    let first = next_clean file.frames (end - (start + 1)) (start + 1) in
    let last = last_clean file.frames (end - 1 - first) (end - 1) in
    if first == end
    then (if (at_start || at_end) && leb (end - start) longest
        then record { start = start; end = end } ∷ []
        else [])
    else ((if at_start && leb (first - start) longest
          then record { start = start; end = first } ∷ []
          else [])
        ++ (if at_end && (leb (end - last) longest && leb first last)
            then record { start = last; end = end } ∷ []
            else []))

pub candidates : File → ℕ → Option ℕ → List Run → List Piece
candidates file longest previous_end [] = []
candidates file longest previous_end (r ∷ rs) =
    pieces_of file longest (open_start previous_end r.home) (open_end rs (end_of r)) r.home
      (end_of r)
    ++ candidates file longest (some (end_of r)) rs

same_from : File → ℕ → ℕ → ℕ → Bool
same_from file zero i j = true
same_from file (suc n) i j =
    bytes_equal (bytes_at file i) (bytes_at file j) && same_from file n (i + 1) (j + 1)

same : File → Piece → Piece → Bool
same file a b =
    (a.end - a.start == b.end - b.start) && same_from file (a.end - a.start) a.start b.start

-- The set of pieces to remove.
member : Piece → List Piece → Bool
member p [] = false
member p (q ∷ qs) = piece_eq p q || member p qs

add : Piece → List Piece → List Piece
add p set = if member p set then set else set ++ p ∷ []

mark_with : File → Piece → List Piece → List Piece → List Piece
mark_with file a [] set = set
mark_with file a (b ∷ bs) set =
    mark_with file a bs (if not (piece_eq a b) && same file a b then add b (add a set) else set)

pub mark_all : File → List Piece → List Piece → List Piece
mark_all file [] set = set
mark_all file (a ∷ rest) set = mark_all file rest (mark_with file a rest set)

-- What a range over the set visits: the elements at the indexes given.
pub visit : List Piece → List ℕ → List Piece
visit set [] = []
visit set (i ∷ is) =
    let rest = visit set is in elim (get_elem? set i) [ none ↦ rest | some p ↦ p ∷ rest ]

add_glued : File → Piece → Piece → List Piece → List Piece
add_glued file glued marker set =
    if not (member glued set) && same file glued marker then add glued set else set

-- A confirmed marker's bytes at an open edge of a run.
glue : File → Bool → Bool → ℕ → ℕ → List Piece → List Piece → List Piece
glue file at_start at_end start end [] set = set
glue file at_start at_end start end (marker ∷ markers) set =
    let length = marker.end - marker.start in
    let first =
      if at_start && leb (start + length) end
      then add_glued file (record { start = start; end = start + length }) marker set
      else set in
    glue file at_start at_end start end markers (
      if at_end && leb (start + length) end
      then add_glued file (record { start = end - length; end = end }) marker first
      else first)

pub glue_all : File → List Piece → Option ℕ → List Run → List Piece → List Piece
glue_all file confirmed previous_end [] set = set
glue_all file confirmed previous_end (r ∷ rs) set = glue_all file confirmed (some (end_of r)) rs (
    glue file (open_start previous_end r.home) (open_end rs (end_of r)) r.home (end_of r) confirmed
      set)

marker_of : Piece → Run
marker_of p = record { home = p.start; other = 0; length = p.end - p.start }

-- Markers at the start of a run, in the order visited; each moves the start on.
pub trim_start : ℕ → List Piece → ℕ → List Run × ℕ
trim_start end [] start = ([], start)
trim_start end (marker ∷ markers) start =
    let at_start = marker.start == start && leb marker.end end in
    let (found, last) = trim_start end markers (if at_start then marker.end else start) in
    (if at_start then marker_of marker ∷ found else found, last)

-- Markers at its end; each moves the end back.
pub trim_end : ℕ → ℕ → List Piece → ℕ → List Run × ℕ
trim_end first start [] end = ([], end)
trim_end first start (marker ∷ markers) end =
    let at_end = marker.end == end && (leb start marker.start && ltb first marker.start) in
    let (found, last) = trim_end first start markers (if at_end then marker.start else end) in
    (if at_end then marker_of marker ∷ found else found, last)

-- One run without its markers, if anything is left of it.
trim_run : List Piece → List Piece → Run → List Run × List Run
trim_run at_start at_end candidate =
    let (front, start) = trim_start (end_of candidate) at_start candidate.home in
    let (back, end) = trim_end candidate.home start at_end (end_of candidate) in
    (
      if ltb start end
          then record {
            home = start;
            other = candidate.other + (start - candidate.home);
            length = end - start;
          }
            ∷ []
          else [],
      front ++ back,
    )

trim_runs : (ℕ → List ℕ) → ℕ → List Piece → List Run → List Run × List Run
trim_runs visits n set [] = ([], [])
trim_runs visits n set (r ∷ rs) =
    let (left, markers) = trim_run (visit set (visits n)) (visit set (visits (n + 1))) r in
    let (result, more) = trim_runs visits (n + 2) set rs in (left ++ result, markers ++ more)

insert_by_home : Run → List Run → List Run
insert_by_home r [] = r ∷ []
insert_by_home r (x ∷ xs) = if leb r.home x.home then r ∷ x ∷ xs else x ∷ insert_by_home r xs

sort_by_home : List Run → List Run
sort_by_home [] = []
sort_by_home (r ∷ rs) = insert_by_home r (sort_by_home rs)

with_set : (ℕ → List ℕ) → File → List Run → List Piece → List Run × List Run
with_set visits file kept [] = (kept, [])
with_set visits file kept (p ∷ ps) =
    let set = p ∷ ps in
    let confirmed = visit set (visits 0) in
    let (result, markers) = trim_runs visits 1 (glue_all file confirmed none kept set) kept in
    (result, sort_by_home markers)

unfoldable pub trim_markers : (ℕ → List ℕ) → List Run → File → ℕ → List Run × List Run
unfolding with_set trim_runs trim_run trim_start trim_end glue_all glue add_glued add member visit
    mark_all mark_with same same_from candidates pieces_of piece_eq open_start open_end sort_by_home
    insert_by_home marker_of
trim_markers visits kept file frame_duration =
    let longest = max_marker / frame_duration in
    with_set visits file kept (mark_all file (candidates file longest none kept) [])
