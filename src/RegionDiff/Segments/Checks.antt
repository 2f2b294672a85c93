-- ===== src/RegionDiff/Segments/Checks.antt =====
-- What the sanity checks let through (modules/regiondiff/diff.go, check).
use solstein.Base.{
  ℕ, ◌-◌, ◌*◌, ◌≤◌, ◌<◌, min, ◌≡◌, ◌≢◌, refl, Bool, true, false, ◌&&◌, none, List, [], ◌∷◌, ltb,
  ◌↔◌, ltb→lt, arith,
}
use solstein.RegionDiff.Run.{Segment, Options, Result}
use solstein.RegionDiff.Segments.{million, check}

-- At most the share allowed is removed, and what is left is not much shorter than the stated duration,
-- or than the home download where that is shorter than stated.
pub record IsPlausible (options : Options) (home_duration duration : ℕ) (kept : List Segment)
    : Type 0 where
  pub some_kept : kept ≢ []
  pub share :
      0 < options.max_removed_share
      → (home_duration - duration) * million ≤ options.max_removed_share * home_duration
  pub long :
      0 < options.expected_duration
      → 0 < options.duration_tolerance
      → (min options.expected_duration home_duration - duration) * million
        ≤ options.duration_tolerance * min options.expected_duration home_duration

guard_false : (a b : Bool) → (a ≡ true → b ≡ false) → (a && b) ≡ false
guard_false true b h = h refl
guard_false false b h = refl

le→ltb_false : (a b : ℕ) → b ≤ a → ltb a b ≡ false
le→ltb_false a b h = ground arith

module _ (result : Result) (options : Options) where
  abbrev Plausible : List Segment → Type 0
  Plausible kept = IsPlausible options result.home_duration result.duration kept

  check_sound :
      (kept : List Segment) → result.kept ≡ kept → check result options ≡ none → Plausible kept
  unfolding check
  check_sound [] e h = absurd (cc (rw (e, check) at h))
  check_sound (s ∷ ss) e h = record {
    some_kept = λ p. cc;
    share = λ pos. ground (arith, e, h, pos);
    long = λ pos pos'. ground (arith, e, h, pos, pos');
  }

  check_complete :
      (kept : List Segment) → result.kept ≡ kept → Plausible kept → check result options ≡ none
  unfolding check
  check_complete [] e h = absurd (h.some_kept refl)
  check_complete (s ∷ ss) e h =
      let removed = (result.home_duration - result.duration) * million in
      let expected = min options.expected_duration result.home_duration in
      let share =
        guard_false (ltb 0 options.max_removed_share)
          (ltb (options.max_removed_share * result.home_duration) removed)
          (λ t. le→ltb_false _ _ (h.share (ltb→lt _ _ t))) in
      let long =
        guard_false (ltb 0 options.expected_duration)
          (ltb 0 options.duration_tolerance
            && ltb (options.duration_tolerance * expected) ((expected - result.duration) * million))
          (λ t.
            guard_false (ltb 0 options.duration_tolerance)
              (ltb (options.duration_tolerance * expected) ((expected - result.duration) * million))
              (λ t'. le→ltb_false _ _ (h.long (ltb→lt _ _ t) (ltb→lt _ _ t')))) in
      ground (arith, e, share, long)

  pub check_iff : (check result options ≡ none) ↔ Plausible result.kept
  check_iff = (check_sound result.kept refl, check_complete result.kept refl)
