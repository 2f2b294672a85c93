-- ===== src/RegionDiff/Repeats/Leftovers.antt =====
-- Where the pieces and the copies of ads lie in a run, and what is left of it
-- (modules/regiondiff/diff.go, removeRepeats).
use solstein.Base.{
  ℕ, zero, suc, ◌+◌, ◌-◌, ◌≤◌, ◌<◌, ◌≡◌, ap, ◌∙◌, subst, inl, inr, not, Option, none, some, List,
  [], ◌∷◌, ◌++◌, leb, Bool-cases, leb→le, All, arith,
}
use solstein.Mp3.Frame.{File}
use solstein.RegionDiff.Run.{Run, InOrder, IsShared, clean_at, bytes_at}
use solstein.RegionDiff.Align.Verified.{InOrder-lower}
use solstein.RegionDiff.Repeats.{Source, Piece, pieces_from, is_copy, copies, leftovers}

-- Pieces in order between two positions.
abbrev PiecesIn : ℕ → ℕ → List Piece → Type 0
PiecesIn from to [] = Unit
PiecesIn from to (p ∷ ps) =
    (from ≤ p.start) × (p.start ≤ p.end) × (p.end ≤ to) × PiecesIn p.end to ps

abbrev from_start : ℕ → Option ℕ → ℕ
from_start i none = i
from_start i (some s) = s

PiecesIn-lower : (a b to : ℕ) (ps : List Piece) → b ≤ a → PiecesIn a to ps → PiecesIn b to ps
PiecesIn-lower a b to [] le h = tt
PiecesIn-lower a b to (p ∷ ps) le (c, d, e, f) = (omega arith, d, e, f)

pub pieces_from-PiecesIn :
    (source : Source) (file : File) (hashes : List ℕ) (shortest n i : ℕ) (start : Option ℕ) (to : ℕ)
    → i + n ≤ to + 1
    → from_start i start ≤ i
    → PiecesIn (from_start i start) to (pieces_from source file hashes shortest n i start)
unfolding pieces_from
pieces_from-PiecesIn source file hashes shortest zero i start to le h = tt
pieces_from-PiecesIn source file hashes shortest (suc n) i none to le h =
    let open_on =
      pieces_from-PiecesIn source file hashes shortest n (i + 1) none to (omega arith)
        (omega arith) in
    let clean_on =
      pieces_from-PiecesIn source file hashes shortest n (i + 1) (some i) to (omega arith)
        (omega arith) in
    elim (Bool-cases (not (clean_at file.frames i))) [
      | inl dirty ↦ rw dirty (PiecesIn-lower (i + 1) i to _ (omega arith) open_on)
      | inr clean ↦ rw clean clean_on
    ]
pieces_from-PiecesIn source file hashes shortest (suc n) i (some s) to le h =
    let open_on =
      pieces_from-PiecesIn source file hashes shortest n (i + 1) (some s) to (omega arith)
        (omega arith) in
    let clean_on =
      pieces_from-PiecesIn source file hashes shortest n (i + 1) (some i) to (omega arith)
        (omega arith) in
    elim (Bool-cases (not (clean_at file.frames i))) [
      | inl dirty ↦ rw dirty open_on
      | inr clean ↦ elim (Bool-cases (leb shortest (i - s))) [
        | inl long ↦ rw (clean, long) (omega arith, h, omega arith, clean_on)
        | inr short ↦ rw (clean, short) (PiecesIn-lower i s to _ h clean_on)
      ]
    ]

-- Runs cut out of a run, in order.
abbrev pub CutIn : ℕ → ℕ → List Run → Type 0
CutIn from to [] = from ≤ to
CutIn from to (r ∷ rs) = (from ≤ r.home) × CutIn (r.home + r.length) to rs

CutIn-le : (from to : ℕ) (rs : List Run) → CutIn from to rs → from ≤ to
CutIn-le from to [] h = h
CutIn-le from to (r ∷ rs) (a, b) = omega (arith, CutIn-le (r.home + r.length) to rs b)

pub copies-CutIn :
    (home other : File) (ads ps : List Piece) (from to : ℕ)
    → from ≤ to
    → PiecesIn from to ps
    → CutIn from to (copies home other ads ps)
unfolding copies
copies-CutIn home other ads [] from to le h = le
copies-CutIn home other ads (p ∷ ps) from to le (a, b, c, d) =
    elim (Bool-cases (is_copy home other ads p)) [
      | inl copy ↦
          let e : p.end ≡ p.start + (p.end - p.start) = omega arith in
          rw copy (
            a,
            subst (λ n. CutIn n to (copies home other ads ps)) e
                (copies-CutIn home other ads ps p.end to c d),
          )
      | inr show ↦ rw show (
          copies-CutIn home other ads ps from to le
            (PiecesIn-lower p.end from to ps (omega arith) d))
    ]

-- A part of a run, at the same place in the other download.
pub record IsPart (whole part : Run) : Type 0 where
  pub starts : whole.home ≤ part.home
  pub ends : part.home + part.length ≤ whole.home + whole.length
  pub aligned : part.other + whole.home ≡ whole.other + part.home

-- A part of a shared run is shared.
pub IsPart-IsShared :
    (home other : File) (whole part : Run)
    → IsPart whole part
    → IsShared home other whole
    → IsShared home other part
IsPart-IsShared home other whole part is shared k lt =
    let shift = part.home - whole.home in
    let e : part.home + k ≡ whole.home + (shift + k) = omega (arith, is.starts) in
    let e' : whole.other + (shift + k) ≡ part.other + k = omega (arith, is.starts, is.aligned) in
    ap (λ (i : ℕ). bytes_at home i) e
    ∙ (shared (shift + k) (omega (arith, is.starts, is.ends)) ∙ ap (λ (i : ℕ). bytes_at other i) e')

-- Lists of runs that follow one another.
pub InOrder-append :
    (h o m n a b : ℕ) (xs ys : List Run)
    → InOrder h o m n xs
    → InOrder m n a b ys
    → InOrder h o a b (xs ++ ys)
InOrder-append h o m n a b [] [] k (c, d) = omega arith
InOrder-append h o m n a b [] (y ∷ ys) k (c, d, e) = (omega arith, omega arith, e)
InOrder-append h o m n a b (x ∷ xs) ys (c, d, e) l =
    (c, d, InOrder-append (x.home + x.length) (x.other + x.length) m n a b xs ys e l)

pub leftovers-InOrder :
    (minimum : ℕ) (c : Run) (start : ℕ) (cut : List Run)
    → c.home ≤ start
    → CutIn start (c.home + c.length) cut
    → InOrder start
        (c.other + start - c.home)
        (c.home + c.length)
        (c.other + c.length)
        (leftovers minimum c start cut)
unfolding leftovers
leftovers-InOrder minimum c start [] le h = ground arith
leftovers-InOrder minimum c start (p ∷ cut) le (a, b) =
    let next = p.home + p.length in
    let rest = leftovers-InOrder minimum c next cut (omega arith) b in
    elim (Bool-cases (leb minimum (p.home - start))) [
      | inl long ↦ rw long (
        omega arith,
        omega arith,
        InOrder-lower next (c.other + next - c.home) (start + (p.home - start))
            (c.other + start - c.home + (p.home - start)) (c.home + c.length) (c.other + c.length)
            (leftovers minimum c next cut) (omega arith) (omega arith) rest,
      )
      | inr short ↦ rw short (
          InOrder-lower next (c.other + next - c.home) start (c.other + start - c.home)
            (c.home + c.length) (c.other + c.length) (leftovers minimum c next cut) (omega arith)
            (omega arith) rest)
    ]

pub leftovers-IsPart :
    (minimum : ℕ) (c : Run) (start : ℕ) (cut : List Run)
    → c.home ≤ start
    → 0 < minimum
    → CutIn start (c.home + c.length) cut
    → All (IsPart c) (leftovers minimum c start cut)
unfolding leftovers
leftovers-IsPart minimum c start [] le pos h =
    elim (Bool-cases (leb minimum (c.home + c.length - start))) [
      | inl long ↦
          rw long (
            record { starts = le; ends = omega (arith, leb→le _ _ long); aligned = omega arith },
            tt,
          )
      | inr short ↦ rw short tt
    ]
leftovers-IsPart minimum c start (p ∷ cut) le pos (a, b) =
    let rest = leftovers-IsPart minimum c (p.home + p.length) cut (omega arith) pos b in
    let within = CutIn-le (p.home + p.length) (c.home + c.length) cut b in
    elim (Bool-cases (leb minimum (p.home - start))) [
      | inl long ↦ rw long (record { starts = le; ends = omega arith; aligned = omega arith }, rest)
      | inr short ↦ rw short rest
    ]
