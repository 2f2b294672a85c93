-- ===== src/RegionDiff/Align/Order.antt =====
-- Where the runs that `align` finds lie (modules/regiondiff/diff.go, align).
use solstein.Base.{
  ℕ, zero, suc, ◌+◌, ◌-◌, ◌≤◌, inl, inr, ◌||◌, List, [], ◌∷◌, ltb, length, All, Bool-cases, arith,
}
use solstein.RegionDiff.Run.{Run, InOrder}
use solstein.RegionDiff.Align.{
  grams, anchors, in_order, steps_back, steps_on, extend, align_from, align,
}
use solstein.RegionDiff.Align.Anchors.{IsWithin, anchors-IsWithin}

steps_back-le :
    (home other : List ℕ) (lh lo fuel h o : ℕ)
    → lh ≤ h
    → lo ≤ o
    → (lh + steps_back home other lh lo fuel h o ≤ h)
      × (lo + steps_back home other lh lo fuel h o ≤ o)
unfolding steps_back
steps_back-le home other lh lo zero h o a b = omega arith
steps_back-le home other lh lo (suc fuel) h o a b =
    ground (arith, steps_back-le home other lh lo fuel (h - 1) (o - 1))

steps_on-le :
    (home other : List ℕ) (fuel h o : ℕ)
    → h ≤ length home
    → o ≤ length other
    → (h + steps_on home other fuel h o ≤ length home)
      × (o + steps_on home other fuel h o ≤ length other)
unfolding steps_on
steps_on-le home other zero h o a b = omega arith
steps_on-le home other (suc fuel) h o a b =
    ground (arith, steps_on-le home other fuel (h + 1) (o + 1))

extend_bounds :
    (home other : List ℕ) (lh lo : ℕ) (anchor : Run)
    → lh ≤ anchor.home
    → lo ≤ anchor.other
    → IsWithin (length home) (length other) anchor
    → let r = extend home other lh lo anchor in
      (lh ≤ r.home)
      × (lo ≤ r.other)
      × (r.home + r.length ≤ length home)
      × (r.other + r.length ≤ length other)
unfolding extend
extend_bounds home other lh lo anchor a b (c, d, e) =
    let back = steps_back-le home other lh lo anchor.home anchor.home anchor.other a b in
    let on =
      steps_on-le home other (length home) (anchor.home + anchor.length)
        (anchor.home + anchor.length - anchor.home + anchor.other) (omega arith) (omega arith) in
    omega arith

align_from-InOrder :
    (home other : List ℕ) (lh lo : ℕ) (rs : List Run)
    → lh ≤ length home
    → lo ≤ length other
    → All (IsWithin (length home) (length other)) rs
    → InOrder lh lo (length home) (length other) (align_from home other lh lo rs)
unfolding align_from
align_from-InOrder home other lh lo [] a b w = (a, b)
align_from-InOrder home other lh lo (anchor ∷ rest) a b (w, ws) =
    elim (Bool-cases (ltb anchor.home lh || ltb anchor.other lo)) [
      | inl over ↦ rw over (align_from-InOrder home other lh lo rest a b ws)
      | inr apart ↦
          let (p, q, r, s) =
            extend_bounds home other lh lo anchor (ground arith) (ground arith) w in
          let found = extend home other lh lo anchor in
          rw apart (
            p,
            q,
            align_from-InOrder home other (found.home + found.length) (found.other + found.length)
                rest r s ws,
          )
    ]

-- For any two lists of frame hashes, the runs found are in order in both downloads, none over another
-- in either, and end inside them.
pub align-InOrder :
    (home other : List ℕ) → InOrder 0 0 (length home) (length other) (align home other)
unfolding align
align-InOrder home other =
    align_from-InOrder home other 0 0 (in_order (anchors (grams home) (grams other))) (omega arith)
      (omega arith) (anchors-IsWithin home other)
