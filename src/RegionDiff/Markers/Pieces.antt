-- ===== src/RegionDiff/Markers/Pieces.antt =====
-- The pieces that count as markers (modules/regiondiff/diff.go, trimMarkers).
use solstein.Base.{
  ℕ, zero, suc, ◌+◌, ◌-◌, ◌≤◌, ◌≡◌, subst, inl, inr, Bool, true, false, not, ◌&&◌, ◌||◌, List, [],
  ◌∷◌, ◌==◌, ltb, leb, if◌then◌else◌, Option, some, some-injective, get_elem?, Bool-cases,
  Option-cases, All, All-append, arith,
}
use solstein.Mp3.Frame.{File}
use solstein.RegionDiff.Run.{Run}
use solstein.RegionDiff.Edges.{next_clean, last_clean}
use solstein.RegionDiff.Edges.Bounds.{next_clean-bounds, last_clean-bounds}
use solstein.RegionDiff.Markers.{
  Piece, piece_eq, open_start, open_end, pieces_of, candidates, same, member, add, mark_with,
  mark_all, add_glued, glue, glue_all, visit, end_of, trim_start, trim_end,
}

-- The pieces that any of the loops puts into the set are not turned round: `start ≤ end`.
abbrev pub IsForward : Piece → Type 0
IsForward p = p.start ≤ p.end

pub trim_start-bounds :
    (end : ℕ) (ps : List Piece) (start : ℕ)
    → All IsForward ps
    → start ≤ end
    → (start ≤ (trim_start end ps start).1) × ((trim_start end ps start).1 ≤ end)
unfolding trim_start
trim_start-bounds end [] start f le = omega arith
trim_start-bounds end (p ∷ ps) start (a, b) le =
    elim (Bool-cases (p.start == start && leb p.end end)) [
      | inl found ↦
          let (x, y) = trim_start-bounds end ps p.end b (ground (arith, found)) in
          rw found (ground (arith, found, x), y)
      | inr other ↦ rw other (trim_start-bounds end ps start b le)
    ]

pub trim_end-bounds :
    (first start : ℕ) (ps : List Piece) (end : ℕ)
    → All IsForward ps
    → (trim_end first start ps end).1 ≤ end
unfolding trim_end
trim_end-bounds first start [] end f = omega arith
trim_end-bounds first start (p ∷ ps) end (a, b) =
    elim (Bool-cases (p.end == end && (leb start p.start && ltb first p.start))) [
      | inl found ↦ rw found (ground (arith, found, trim_end-bounds first start ps p.start b))
      | inr other ↦ rw other (trim_end-bounds first start ps end b)
    ]

abbrev start_end : ℕ → ℕ → Piece
start_end start end = record { start = start; end = end }

choose-All :
    (test : Bool) (xs ys : List Piece)
    → All IsForward xs
    → All IsForward ys
    → All IsForward (if test then xs else ys)
choose-All true xs ys h k = h
choose-All false xs ys h k = k

if-All : (test : Bool) (p : Piece) → IsForward p → All IsForward (if test then p ∷ [] else [])
if-All true p h = (h, tt)
if-All false p h = tt

get_elem?-All :
    (set : List Piece) (i : ℕ) {p : Piece}
    → All IsForward set
    → get_elem? set i ≡ some p
    → IsForward p
get_elem?-All [] i h e = absurd (cc)
get_elem?-All (x ∷ xs) zero (a, b) e = subst IsForward (some-injective _ _ e) a
get_elem?-All (x ∷ xs) (suc i) (a, b) e = get_elem?-All xs i b e

add-All :
    (p : Piece) (set : List Piece) → IsForward p → All IsForward set → All IsForward (add p set)
unfolding add
add-All p set h hs = elim (Bool-cases (member p set)) [
  | inl there ↦ rw there hs
  | inr new ↦ rw new (All-append IsForward set (p ∷ []) hs (h, tt))
]

pub visit-All : (set : List Piece) (is : List ℕ) → All IsForward set → All IsForward (visit set is)
unfolding visit
visit-All set [] h = tt
visit-All set (i ∷ is) h = elim (Option-cases (get_elem? set i)) [
  | inl out ↦ rw (out, visit) (visit-All set is h)
  | inr (p, found) ↦ rw (found, visit) (get_elem?-All set i h found, visit-All set is h)
]

pieces_of-All :
    (file : File) (longest : ℕ) (a b : Bool) (start end : ℕ)
    → start ≤ end
    → All IsForward (pieces_of file longest a b start end)
unfolding pieces_of
pieces_of-All file longest a b start end le =
    let n = end - (start + 1) in
    let first = next_clean file.frames n (start + 1) in
    let (low, high) = next_clean-bounds file.frames n (start + 1) in
    let last = last_clean file.frames (end - 1 - first) (end - 1) in
    let (x, y) = last_clean-bounds file.frames (end - 1 - first) (end - 1) (omega arith) in
    elim (Bool-cases (first == end)) [
      | inl whole ↦
          rw whole (if-All ((a || b) && leb (end - start) longest) (start_end start end) le)
      | inr parts ↦
          let front = a && leb (first - start) longest in
          let back = b && (leb (end - last) longest && leb first last) in
          rw parts (
            All-append IsForward (if front then start_end start first ∷ [] else [])
              (if back then start_end last end ∷ [] else [])
              (if-All front (start_end start first) (omega arith))
              (if-All back (start_end last end) (omega arith)))
    ]

pub candidates-All :
    (file : File) (longest : ℕ) (previous : Option ℕ) (rs : List Run)
    → All IsForward (candidates file longest previous rs)
unfolding candidates
candidates-All file longest previous [] = tt
candidates-All file longest previous (r ∷ rs) =
    All-append IsForward
      (pieces_of file longest (open_start previous r.home) (open_end rs (end_of r)) r.home
        (end_of r))
      (candidates file longest (some (end_of r)) rs)
      (pieces_of-All file longest (open_start previous r.home) (open_end rs (end_of r)) r.home
        (end_of r) (omega arith))
      (candidates-All file longest (some (end_of r)) rs)

mark_with-All :
    (file : File) (a : Piece) (bs set : List Piece)
    → IsForward a
    → All IsForward bs
    → All IsForward set
    → All IsForward (mark_with file a bs set)
unfolding mark_with
mark_with-All file a [] set h hs k = k
mark_with-All file a (b ∷ bs) set h (c, d) k =
    elim (Bool-cases (not (piece_eq a b) && same file a b)) [
      | inl twin ↦ rw twin (
          mark_with-All file a bs (add b (add a set)) h d
            (add-All b (add a set) c (add-All a set h k)))
      | inr lone ↦ rw lone (mark_with-All file a bs set h d k)
    ]

pub mark_all-All :
    (file : File) (ps set : List Piece)
    → All IsForward ps
    → All IsForward set
    → All IsForward (mark_all file ps set)
unfolding mark_all
mark_all-All file [] set h k = k
mark_all-All file (a ∷ rest) set (b, c) k =
    mark_all-All file rest (mark_with file a rest set) c (mark_with-All file a rest set b c k)

add_glued-All :
    (file : File) (glued marker : Piece) (set : List Piece)
    → IsForward glued
    → All IsForward set
    → All IsForward (add_glued file glued marker set)
unfolding add_glued
add_glued-All file glued marker set h k =
    elim (Bool-cases (not (member glued set) && same file glued marker)) [
      | inl twin ↦ rw twin (add-All glued set h k)
      | inr lone ↦ rw lone k
    ]

glue-All :
    (file : File) (a b : Bool) (start end : ℕ) (ms set : List Piece)
    → All IsForward set
    → All IsForward (glue file a b start end ms set)
unfolding glue
glue-All file a b start end [] set k = k
glue-All file a b start end (m ∷ ms) set k =
    let length = m.end - m.start in
    let glued = start_end start (start + length) in
    let glued' = start_end (end - length) end in
    let first = if a && leb (start + length) end then add_glued file glued m set else set in
    let kf : All IsForward first =
      choose-All (a && leb (start + length) end) (add_glued file glued m set) set
        (add_glued-All file glued m set (omega arith) k) k in
    glue-All file a b start end ms _ (
      choose-All (b && leb (start + length) end) (add_glued file glued' m first) first
        (add_glued-All file glued' m first (omega arith) kf) kf)

pub glue_all-All :
    (file : File) (confirmed : List Piece) (previous : Option ℕ) (rs : List Run) (set : List Piece)
    → All IsForward set
    → All IsForward (glue_all file confirmed previous rs set)
unfolding glue_all
glue_all-All file confirmed previous [] set k = k
glue_all-All file confirmed previous (r ∷ rs) set k =
    glue_all-All file confirmed (some (end_of r)) rs _ (
      glue-All file (open_start previous r.home) (open_end rs (end_of r)) r.home (end_of r)
        confirmed set k)
