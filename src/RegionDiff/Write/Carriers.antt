-- ===== src/RegionDiff/Write/Carriers.antt =====
-- Which removed frames stay as silent frames (modules/regiondiff/diff.go, carriers).
use solstein.Base.{
  ℕ, zero, suc, ◌+◌, ◌-◌, ◌≤◌, ◌<◌, ◌≡◌, refl, sym, ap, ◌∙◌, subst, ◌⊎◌, inl, inr, false, ◌||◌,
  List, ltb, leb, length, Bool-cases, ltb→lt, ltb_false→le, arith,
}
use solstein.Mp3.Frame.{Frame}
use solstein.RegionDiff.Write.{main_data_at, needs_at, carry, carriers}

-- The main data of `n` frames from `i` on.
unfoldable pub main_data_of : List Frame → ℕ → ℕ → ℕ
main_data_of frames i zero = 0
main_data_of frames i (suc n) = main_data_at frames i + main_data_of frames (i + 1) n

-- What the frames [to, start) are for a frame that needs bytes from before `start`.
pub record Carry (frames : List Frame) (need from start to : ℕ) : Type 0 where
  pub low : from ≤ to
  pub high : to ≤ start
  pub enough : (to ≡ from) ⊎ (need ≤ main_data_of frames to (start - to))
  pub fewest : to < start → main_data_of frames (to + 1) (start - (to + 1)) < need

-- One frame more before `first`.
main_data_before :
    (frames : List Frame) (start first : ℕ)
    → 0 < first
    → first ≤ start
    → main_data_of frames (first - 1) (start - (first - 1))
      ≡ main_data_at frames (first - 1) + main_data_of frames first (start - first)
main_data_before frames start first pos le =
    let e : start - (first - 1) ≡ suc (start - first) = omega arith in
    let e' : first - 1 + 1 ≡ first = omega arith in
    ap (λ (k : ℕ). main_data_of frames (first - 1) k) e
    ∙ unfold main_data_of in
      ap (λ (k : ℕ). main_data_at frames (first - 1) + main_data_of frames k (start - first)) e'

carry-Carry :
    (frames : List Frame) (need from start n first carried : ℕ)
    → first ≡ from + n
    → first ≤ start
    → carried ≡ main_data_of frames first (start - first)
    → (first < start → main_data_of frames (first + 1) (start - (first + 1)) < need)
    → Carry frames need from start (carry frames need n first carried)
unfolding carry
carry-Carry frames need from start zero first carried e le sum few = record {
  low = omega arith;
  high = le;
  enough = inl (omega arith);
  fewest = few;
}
carry-Carry frames need from start (suc n) first carried e le sum few =
    elim (Bool-cases (ltb carried need)) [
      | inl short ↦
          let more = main_data_before frames start first (omega arith) le in
          let back : first ≡ first - 1 + 1 = omega arith in
          rw short (
            carry-Carry frames need from start n (first - 1)
              (carried + main_data_at frames (first - 1)) (omega arith) (omega arith) (omega arith)
              (λ _.
                subst (λ k. main_data_of frames k (start - k) < need) back
                  (omega (arith, ltb→lt _ _ short))))
      | inr full ↦ rw full (record {
        low = omega arith;
        high = le;
        enough = inr (omega (arith, ltb_false→le _ _ full));
        fewest = few;
      })
    ]

-- For a frame inside the file, the silent frames before it are among those removed, and carry the
-- bytes it borrows unless all of the removed frames stay; one fewer would not carry them.
pub carriers-Carry :
    (frames : List Frame) (removed_from start : ℕ)
    → removed_from < start
    → start < length frames
    → Carry frames (needs_at frames start) removed_from start (carriers frames removed_from start)
unfolding carriers
carriers-Carry frames removed_from start lt inside =
    let e : (leb start removed_from || leb (length frames) start) ≡ false = ground arith in
    rw e (
      carry-Carry frames (needs_at frames start) removed_from start (start - removed_from) start 0
        (omega arith) (omega arith)
        (let e : start - start ≡ 0 = omega arith in
          sym (ap (λ (k : ℕ). main_data_of frames start k) e ∙ unfold main_data_of in refl))
        (λ h. absurd (omega arith)))
