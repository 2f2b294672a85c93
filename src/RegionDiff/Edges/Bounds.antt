-- ===== src/RegionDiff/Edges/Bounds.antt =====
-- Where a trimmed run starts and ends (modules/regiondiff/diff.go, toSegmentBoundaries).
use solstein.Base.{
  ℕ, zero, suc, ◌+◌, ◌-◌, ◌≤◌, ◌<◌, ◌≡◌, refl, subst, ◌⊎◌, inl, inr, true, false, some,
  some-injective, List, ◌==◌, leb, Bool-cases, Option-cases, leb→le, arith,
}
use solstein.Mp3.Frame.{Frame}
use solstein.RegionDiff.Run.{Run, clean_at}
use solstein.RegionDiff.Edges.{
  next_clean, last_clean, first_of_run, end_of_run, to_segment_boundaries,
}

-- No frame of [from, to) is clean.
abbrev pub NoneClean : List Frame → ℕ → ℕ → Type 0
NoneClean frames from to = (i : ℕ) → from ≤ i → i < to → clean_at frames i ≡ false

pub next_clean-bounds :
    (frames : List Frame) (n i : ℕ) → (i ≤ next_clean frames n i) × (next_clean frames n i ≤ i + n)
unfolding next_clean
next_clean-bounds frames zero i = omega arith
next_clean-bounds frames (suc n) i = ground (arith, next_clean-bounds frames n (i + 1))

next_clean-clean :
    (frames : List Frame) (n i : ℕ)
    → next_clean frames n i < i + n
    → clean_at frames (next_clean frames n i) ≡ true
unfolding next_clean
next_clean-clean frames zero i h = absurd (omega arith)
next_clean-clean frames (suc n) i h = elim (Bool-cases (clean_at frames i)) [
  | inl clean ↦ rw clean clean
  | inr dirty ↦
      rw dirty (next_clean-clean frames n (i + 1) (omega (arith, rw (dirty, next_clean) at h)))
]

next_clean-NoneClean : (frames : List Frame) (n i : ℕ) → NoneClean frames i (next_clean frames n i)
unfolding next_clean
next_clean-NoneClean frames zero i j lo hi = absurd (omega arith)
next_clean-NoneClean frames (suc n) i j lo hi = elim (Bool-cases (clean_at frames i)) [
  | inl clean ↦ absurd (omega (arith, rw (clean, next_clean) at hi))
  | inr dirty ↦
      let hi' = rw (dirty, next_clean) at hi in
      elim (Bool-cases (i == j)) [
        | inl here ↦ ground (arith, here, dirty)
        | inr later ↦ next_clean-NoneClean frames n (i + 1) j (ground (arith, later)) hi'
      ]
]

pub last_clean-bounds :
    (frames : List Frame) (n i : ℕ)
    → n ≤ i
    → (i ≤ last_clean frames n i + n) × (last_clean frames n i ≤ i)
unfolding last_clean
last_clean-bounds frames zero i h = omega arith
last_clean-bounds frames (suc n) i h = ground (arith, last_clean-bounds frames n (i - 1))

last_clean-clean :
    (frames : List Frame) (n i : ℕ)
    → n ≤ i
    → i < last_clean frames n i + n
    → clean_at frames (last_clean frames n i) ≡ true
unfolding last_clean
last_clean-clean frames zero i le h = absurd (omega (arith, last_clean-bounds frames zero i le))
last_clean-clean frames (suc n) i le h = elim (Bool-cases (clean_at frames i)) [
  | inl clean ↦ rw clean clean
  | inr dirty ↦
      rw dirty (
        last_clean-clean frames n (i - 1) (omega arith)
          (omega (arith, rw (dirty, last_clean) at h)))
]

-- What a trimmed run is to the run that it was.
pub record IsTrimmed (frames : List Frame) (unanchored : ℕ) (from to : Run) : Type 0 where
  pub starts : from.home ≤ to.home
  pub ends : to.home + to.length ≤ from.home + from.length
  pub some_frames : 0 < to.length
  pub aligned : to.other + from.home ≡ from.other + to.home
  pub start_clean :
      (clean_at frames to.home ≡ true)
      ⊎ ((to.home ≡ from.home)
          × ((k : ℕ) × (unanchored ≤ k) × NoneClean frames from.home (from.home + k)))
  pub end_clean :
      (clean_at frames (to.home + to.length) ≡ true)
      ⊎ (to.home + to.length ≡ from.home + from.length)

first_of_run_lem :
    (frames : List Frame) (unanchored start end : ℕ)
    → start ≤ end
    → let first = first_of_run frames unanchored start end in
      (start ≤ first)
      × (first ≤ end)
      × ((first < end)
          → (clean_at frames first ≡ true)
            ⊎ ((first ≡ start) × ((k : ℕ) × (unanchored ≤ k) × NoneClean frames start (start + k))))
first_of_run_lem frames unanchored start end le =
    let n = end - start in
    let first = next_clean frames n start in
    let (low, high) = next_clean-bounds frames n start in
    elim (Bool-cases (leb unanchored (first - start))) [
      | inl long ↦ rw long (
        omega arith,
        le,
        λ lt. inr (
          refl,
          (
            first - start,
            leb→le _ _ long,
            λ j lo hi. next_clean-NoneClean frames n start j lo (omega arith),
          ),
        ),
      )
      | inr short ↦
          rw short (low, omega arith, λ lt. inl (next_clean-clean frames n start (omega arith)))
    ]

end_of_run_lem :
    (frames : List Frame) (unanchored start end : ℕ) {last : ℕ}
    → start < end
    → end_of_run frames unanchored start end ≡ some last
    → (start < last) × (last ≤ end) × ((clean_at frames last ≡ true) ⊎ (last ≡ end))
unfolding end_of_run
end_of_run_lem frames unanchored start end {last} lt e =
    let n = end - 1 - start in
    let (low, high) = last_clean-bounds frames n (end - 1) (omega arith) in
    let clean = last_clean-clean frames n (end - 1) (omega arith) in
    elim (Bool-cases (clean_at frames end)) [
      | inl at_end ↦ ground (arith, at_end)
      | inr dirty ↦ elim (Bool-cases (leb unanchored (end - last_clean frames n (end - 1)))) [
        | inl long ↦ ground (arith, dirty, long)
        | inr short ↦ elim (Bool-cases (last_clean frames n (end - 1) == start)) [
          | inl at_start ↦ ground (arith, dirty, short, at_start)
          | inr inner ↦
              let found : clean_at frames (last_clean frames n (end - 1)) ≡ true =
                clean (ground (arith, low, inner)) in
              let same : last_clean frames n (end - 1) ≡ last =
                ground (arith, dirty, short, inner) in
              (ground (arith, low, inner, same), omega arith, inl (rw (← same) found))
        ]
      ]
    ]

-- A trimmed run is a part of the run with the same place in the other download, not empty. It
-- starts on a clean frame, or where the run does and no frame is clean for the stretch that counts
-- as show, and it ends on a clean frame or where the run does.
pub to_segment_boundaries-IsTrimmed :
    (frames : List Frame) (unanchored : ℕ) (candidate : Run) {r : Run}
    → to_segment_boundaries candidate frames unanchored ≡ some r
    → IsTrimmed frames unanchored candidate r
unfolding to_segment_boundaries
to_segment_boundaries-IsTrimmed frames unanchored candidate {r} e =
    let end = candidate.home + candidate.length in
    let start = first_of_run frames unanchored candidate.home end in
    let (low, high, clean) = first_of_run_lem frames unanchored candidate.home end (omega arith) in
    elim (Bool-cases (start == end)) [
      | inl empty ↦ absurd (cc (rw (empty, to_segment_boundaries) at e))
      | inr full ↦ elim (Option-cases (end_of_run frames unanchored start end)) [
        | inl dropped ↦ absurd (cc (rw (full, dropped, to_segment_boundaries) at e))
        | inr (last, found) ↦
            let lt : start < end = ground (arith, high, full) in
            let (a, b, c) = end_of_run_lem frames unanchored start end lt found in
            let back : last ≡ start + (last - start) = omega arith in
            let same = some-injective _ _ (rw (full, found, to_segment_boundaries) at e) in
            subst (IsTrimmed frames unanchored candidate) same (record {
              starts = low;
              ends = omega arith;
              some_frames = omega arith;
              aligned = omega arith;
              start_clean = clean lt;
              end_clean = subst (λ n. (clean_at frames n ≡ true) ⊎ (n ≡ end)) back c;
            })
      ]
    ]
