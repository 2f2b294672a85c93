-- ===== src/RegionDiff/Align/Verified.antt =====
-- The runs that `verify` lets through (modules/regiondiff/diff.go, verify).
use solstein.Base.{
  ℕ, zero, suc, ◌+◌, ◌≤◌, ◌<◌, ◌≡◌, ap, ◌∙◌, inl, inr, List, [], ◌∷◌, ltb, All, bytes_equal,
  bytes_equal→eq, Bool-cases, arith,
}
use solstein.Mp3.Frame.{File}
use solstein.RegionDiff.Run.{Run, InOrder, IsShared, bytes_at}
use solstein.RegionDiff.Align.{verified_length, verify}

verified_length-le : (home other : File) (n h o : ℕ) → verified_length home other n h o ≤ n
unfolding verified_length
verified_length-le home other zero h o = omega arith
verified_length-le home other (suc n) h o =
    ground (arith, verified_length-le home other n (h + 1) (o + 1))

verified_length-shared :
    (home other : File) (n h o k : ℕ)
    → k < verified_length home other n h o
    → bytes_at home (h + k) ≡ bytes_at other (o + k)
unfolding verified_length
verified_length-shared home other zero h o k lt = absurd (omega arith)
verified_length-shared home other (suc n) h o zero lt =
    elim (Bool-cases (bytes_equal (bytes_at home h) (bytes_at other o))) [
      | inl same ↦
          let e : h + 0 ≡ h = omega arith in
          let e' : o ≡ o + 0 = omega arith in
          ap (λ (i : ℕ). bytes_at home i) e
          ∙ (bytes_equal→eq _ _ same ∙ ap (λ (i : ℕ). bytes_at other i) e')
      | inr differ ↦ absurd (omega (arith, rw (differ, verified_length) at lt))
    ]
verified_length-shared home other (suc n) h o (suc k) lt =
    elim (Bool-cases (bytes_equal (bytes_at home h) (bytes_at other o))) [
      | inl same ↦
          let e : h + suc k ≡ h + 1 + k = omega arith in
          let e' : o + 1 + k ≡ o + suc k = omega arith in
          let lower = rw (same, verified_length) at lt in
          ap (λ (i : ℕ). bytes_at home i) e
          ∙ (verified_length-shared home other n (h + 1) (o + 1) k (omega arith)
              ∙ ap (λ (i : ℕ). bytes_at other i) e')
      | inr differ ↦ absurd (omega (arith, rw (differ, verified_length) at lt))
    ]

-- Whatever runs are given, those that verification lets through are the same bytes in both downloads,
-- frame by frame.
pub verify-IsShared :
    (home other : File) (rs : List Run) → All (IsShared home other) (verify home other rs)
unfolding verify
verify-IsShared home other [] = tt
verify-IsShared home other (r ∷ rs) =
    elim (Bool-cases (ltb 0 (verified_length home other r.length r.home r.other))) [
      | inl pos ↦
          rw pos (
            verified_length-shared home other r.length r.home r.other,
            verify-IsShared home other rs,
          )
      | inr empty ↦ rw empty (verify-IsShared home other rs)
    ]

-- Lower bounds of an ordered list of runs may be lowered.
pub InOrder-lower :
    (h o h' o' a b : ℕ) (rs : List Run)
    → h' ≤ h
    → o' ≤ o
    → InOrder h o a b rs
    → InOrder h' o' a b rs
InOrder-lower h o h' o' a b [] lh lo k = omega arith
InOrder-lower h o h' o' a b (r ∷ rs) lh lo (p, q, k) = (omega arith, omega arith, k)

-- Cutting runs short keeps them in order.
pub verify-InOrder :
    (home other : File) (h o a b : ℕ) (rs : List Run)
    → InOrder h o a b rs
    → InOrder h o a b (verify home other rs)
unfolding verify
verify-InOrder home other h o a b [] k = k
verify-InOrder home other h o a b (r ∷ rs) (p, q, k) =
    let n = verified_length home other r.length r.home r.other in
    let short = verified_length-le home other r.length r.home r.other in
    let rest = verify-InOrder home other (r.home + r.length) (r.other + r.length) a b rs k in
    elim (Bool-cases (ltb 0 n)) [
      | inl pos ↦ rw pos (
        p,
        q,
        InOrder-lower _ _ (r.home + n) (r.other + n) a b _ (omega arith) (omega arith) rest,
      )
      | inr empty ↦ rw empty (InOrder-lower _ _ h o a b _ (omega arith) (omega arith) rest)
    ]
