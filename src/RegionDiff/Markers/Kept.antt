-- ===== src/RegionDiff/Markers/Kept.antt =====
-- What removing break markers leaves (modules/regiondiff/diff.go, trimMarkers).
use solstein.Base.{
  ℕ, ◌+◌, inl, inr, List, [], ◌∷◌, ltb, ◌/◌, none, Bool-cases, All, All-append, ltb→lt, arith,
}
use solstein.Mp3.Frame.{File}
use solstein.RegionDiff.Run.{Run, InOrder, IsShared, max_marker}
use solstein.RegionDiff.Align.Verified.{InOrder-lower}
use solstein.RegionDiff.Repeats.Leftovers.{IsPart, IsPart-IsShared, InOrder-append}
use solstein.RegionDiff.Markers.{
  Piece, candidates, mark_all, glue_all, visit, end_of, trim_start, trim_end, trim_run, trim_runs,
  with_set, trim_markers,
}
use solstein.RegionDiff.Markers.Pieces.{
  IsForward, trim_start-bounds, trim_end-bounds, visit-All, candidates-All, mark_all-All,
  glue_all-All,
}

-- A run without its markers is a part of it.
trim_run-kept :
    (xs ys : List Piece) (c : Run)
    → All IsForward xs
    → All IsForward ys
    → InOrder c.home c.other (c.home + c.length) (c.other + c.length) (trim_run xs ys c).0
      × All (IsPart c) (trim_run xs ys c).0
unfolding trim_run
trim_run-kept xs ys c h k =
    let start = (trim_start (end_of c) xs c.home).1 in
    let (a, b) = trim_start-bounds (end_of c) xs c.home h (omega arith) in
    let end = (trim_end c.home start ys (end_of c)).1 in
    let d = trim_end-bounds c.home start ys (end_of c) k in
    elim (Bool-cases (ltb start end)) [
      | inl left ↦
          let lt = ltb→lt _ _ left in
          rw left (
            (omega arith, omega arith, (omega arith, omega arith)),
            (record { starts = a; ends = omega arith; aligned = omega arith }, tt),
          )
      | inr none' ↦ rw none' ((omega arith, omega arith), tt)
    ]

module _ (home other : File) (visits : ℕ → List ℕ) (set : List Piece) (f : All IsForward set) where
  parts-IsShared :
      (c : Run) (parts : List Run)
      → IsShared home other c
      → All (IsPart c) parts
      → All (IsShared home other) parts
  parts-IsShared c [] sh h = tt
  parts-IsShared c (x ∷ xs) sh (a, b) =
      (IsPart-IsShared home other c x a sh, parts-IsShared c xs sh b)

  trim_runs-kept :
      (n h o a b : ℕ) (kept : List Run)
      → InOrder h o a b kept
      → All (IsShared home other) kept
      → InOrder h o a b (trim_runs visits n set kept).0
        × All (IsShared home other) (trim_runs visits n set kept).0
  unfolding trim_runs
  trim_runs-kept n h o a b [] k sh = (k, tt)
  trim_runs-kept n h o a b (c ∷ kept) (p, q, k) (s, sh) =
      let (order, parts) =
        trim_run-kept (visit set (visits n)) (visit set (visits (n + 1))) c
          (visit-All set (visits n) f) (visit-All set (visits (n + 1)) f) in
      let (order', shared) =
        trim_runs-kept (n + 2) (c.home + c.length) (c.other + c.length) a b kept k sh in
      let left = (trim_run (visit set (visits n)) (visit set (visits (n + 1))) c).0 in
      let rest = (trim_runs visits (n + 2) set kept).0 in
      (
        InOrder-append h o (c.home + c.length) (c.other + c.length) a b left rest
            (InOrder-lower c.home c.other h o (c.home + c.length) (c.other + c.length) left p q
              order)
            order',
        All-append (IsShared home other) left rest (parts-IsShared c left s parts) shared,
      )

with_set-kept :
    (home other : File) (visits : ℕ → List ℕ) (set : List Piece) (h o a b : ℕ) (kept : List Run)
    → All IsForward set
    → InOrder h o a b kept
    → All (IsShared home other) kept
    → InOrder h o a b (with_set visits home kept set).0
      × All (IsShared home other) (with_set visits home kept set).0
unfolding with_set
with_set-kept home other visits [] h o a b kept f k sh = (k, sh)
with_set-kept home other visits (p ∷ ps) h o a b kept f k sh =
    let set = p ∷ ps in
    trim_runs-kept home other visits (glue_all home (visit set (visits 0)) none kept set)
      (glue_all-All home (visit set (visits 0)) none kept set f) 1 h o a b kept k sh

-- For runs shared and in order in both downloads, trimming break markers leaves runs that are shared
-- and in order in both downloads within the same bounds, whatever order the map is ranged over in.
pub trim_markers-kept :
    (home other : File) (visits : ℕ → List ℕ) (frame_duration h o a b : ℕ) (kept : List Run)
    → InOrder h o a b kept
    → All (IsShared home other) kept
    → let left = (trim_markers visits kept home frame_duration).0 in
      InOrder h o a b left × All (IsShared home other) left
unfolding trim_markers
trim_markers-kept home other visits frame_duration h o a b kept k sh =
    let longest = max_marker / frame_duration in
    let set = mark_all home (candidates home longest none kept) [] in
    with_set-kept home other visits set h o a b kept
      (mark_all-All home (candidates home longest none kept) []
        (candidates-All home longest none kept) tt)
      k sh
