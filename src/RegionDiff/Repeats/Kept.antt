-- ===== src/RegionDiff/Repeats/Kept.antt =====
-- What removing repeats leaves (modules/regiondiff/diff.go, removeRepeats).
use solstein.Base.{ℕ, ◌+◌, ◌-◌, ◌<◌, ◌≡◌, none, List, [], ◌∷◌, ◌++◌, All, All-append, arith}
use solstein.Mp3.Frame.{File}
use solstein.RegionDiff.Run.{Run, InOrder, IsShared}
use solstein.RegionDiff.Align.Verified.{InOrder-lower}
use solstein.RegionDiff.Repeats.{
  Source, Piece, pieces, copies, leftovers, cut_copies, with_ads, remove_repeats,
}
use solstein.RegionDiff.Repeats.Leftovers.{
  pieces_from-PiecesIn, CutIn, copies-CutIn, IsPart, IsPart-IsShared, InOrder-append,
  leftovers-InOrder, leftovers-IsPart,
}

module _ (home other : File) (hashes : List ℕ) (ads : List Piece) (shortest minimum : ℕ) where
  -- The pieces cut out of a run lie in it, in order.
  cut_of-CutIn :
      (c : Run)
      → CutIn c.home (c.home + c.length) (
          copies home other ads
            (pieces Source.home home hashes shortest c.home (c.home + c.length)))
  unfolding pieces
  cut_of-CutIn c = copies-CutIn home other ads _ c.home (c.home + c.length) (omega arith) (
      pieces_from-PiecesIn Source.home home hashes shortest (c.home + c.length + 1 - c.home) c.home
        none (c.home + c.length) (omega arith) (omega arith))

  abbrev cut_of : Run → List Run
  cut_of c =
      copies home other ads (pieces Source.home home hashes shortest c.home (c.home + c.length))

  -- What the loop makes of one run.
  abbrev rest_of : Run → List Run → List Run
  rest_of c [] = c ∷ []
  rest_of c (piece ∷ more) = leftovers minimum c c.home (piece ∷ more)

  cut_copies_lem :
      (c : Run) (kept : List Run)
      → (cut_copies home other hashes ads shortest minimum (c ∷ kept)).0
        ≡ rest_of c (cut_of c) ++ (cut_copies home other hashes ads shortest minimum kept).0
  unfolding cut_copies
  cut_copies_lem c kept = ground arith

  rest_of-InOrder :
      (c : Run) (cut : List Run)
      → CutIn c.home (c.home + c.length) cut
      → InOrder c.home c.other (c.home + c.length) (c.other + c.length) (rest_of c cut)
  rest_of-InOrder c [] k = omega arith
  rest_of-InOrder c (piece ∷ more) k =
      InOrder-lower c.home (c.other + c.home - c.home) c.home c.other (c.home + c.length)
        (c.other + c.length) (leftovers minimum c c.home (piece ∷ more)) (omega arith) (omega arith)
        (leftovers-InOrder minimum c c.home (piece ∷ more) (omega arith) k)

  pub cut_copies-InOrder :
      (h o a b : ℕ) (kept : List Run)
      → InOrder h o a b kept
      → InOrder h o a b (cut_copies home other hashes ads shortest minimum kept).0
  cut_copies-InOrder h o a b [] k = unfold cut_copies in k
  cut_copies-InOrder h o a b (c ∷ kept) (p, q, k) = rw (cut_copies_lem c kept) (
      InOrder-append h o (c.home + c.length) (c.other + c.length) a b (rest_of c (cut_of c)) _
        (InOrder-lower c.home c.other h o (c.home + c.length) (c.other + c.length)
          (rest_of c (cut_of c)) p q (rest_of-InOrder c (cut_of c) (cut_of-CutIn c)))
        (cut_copies-InOrder (c.home + c.length) (c.other + c.length) a b kept k))

  module _ (pos : 0 < minimum) where
    rest_of-IsPart :
        (c : Run) (cut : List Run)
        → CutIn c.home (c.home + c.length) cut
        → All (IsPart c) (rest_of c cut)
    rest_of-IsPart c [] k =
        (record { starts = omega arith; ends = omega arith; aligned = omega arith }, tt)
    rest_of-IsPart c (piece ∷ more) k =
        leftovers-IsPart minimum c c.home (piece ∷ more) (omega arith) pos k

    parts-IsShared :
        (c : Run) (parts : List Run)
        → IsShared home other c
        → All (IsPart c) parts
        → All (IsShared home other) parts
    parts-IsShared c [] sh h = tt
    parts-IsShared c (x ∷ xs) sh (a, b) =
        (IsPart-IsShared home other c x a sh, parts-IsShared c xs sh b)

    pub cut_copies-IsShared :
        (kept : List Run)
        → All (IsShared home other) kept
        → All (IsShared home other) (cut_copies home other hashes ads shortest minimum kept).0
    cut_copies-IsShared [] h = unfold cut_copies in tt
    cut_copies-IsShared (c ∷ kept) (a, b) = rw (cut_copies_lem c kept) (
        All-append (IsShared home other) (rest_of c (cut_of c)) _
          (parts-IsShared c (rest_of c (cut_of c)) a (rest_of-IsPart c (cut_of c) (cut_of-CutIn c)))
          (cut_copies-IsShared kept b))

with_ads-kept :
    (home other : File) (hashes : List ℕ) (ads : List Piece) (shortest minimum h o a b : ℕ)
    (kept : List Run)
    → 0 < minimum
    → InOrder h o a b kept
    → All (IsShared home other) kept
    → let left = (with_ads kept home other hashes ads shortest minimum).0 in
      InOrder h o a b left × All (IsShared home other) left
unfolding with_ads
with_ads-kept home other hashes [] shortest minimum h o a b kept pos k sh = (k, sh)
with_ads-kept home other hashes (ad ∷ ads) shortest minimum h o a b kept pos k sh = (
  cut_copies-InOrder home other hashes (ad ∷ ads) shortest minimum h o a b kept k,
  cut_copies-IsShared home other hashes (ad ∷ ads) shortest minimum pos kept sh,
)

-- For runs shared and in order in both downloads and a shortest run of at least a frame, removing
-- repeated ads leaves runs that are shared and in order in both downloads within the same bounds.
pub remove_repeats-kept :
    (home other : File) (home_hashes other_hashes : List ℕ) (minimum frame_duration h o a b : ℕ)
    (kept : List Run)
    → 0 < minimum
    → InOrder h o a b kept
    → All (IsShared home other) kept
    → let left =
        (remove_repeats kept home other home_hashes other_hashes minimum frame_duration).0 in
      InOrder h o a b left × All (IsShared home other) left
unfolding remove_repeats
remove_repeats-kept home other home_hashes other_hashes minimum frame_duration h o a b kept pos k
      sh =
    with_ads-kept home other home_hashes _ _ minimum h o a b kept pos k sh
