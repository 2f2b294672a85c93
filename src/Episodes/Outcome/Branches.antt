-- ===== src/Episodes/Outcome/Branches.antt =====
-- The ways in which a failed attempt is recorded, by the tests that lead to them
-- (episodes/pipeline.go, recordOutcome).
use solstein.Base.{ℕ, ◌≡◌, refl, Bool, true, false, not, ◌&&◌, ◌||◌, none, ltb, leb, length}
use solstein.Models.{Feed, Episode, is_acquiring, is_failed}
use solstein.Episodes.Outcome.{
  Pipeline, Failure, retry_delays, max_request_failures, record_late, give_up, retry, record_failed,
}

-- Whether the failure policy decides.
abbrev pub is_over : Failure → Episode → Bool
is_over failure e =
    failure.permanent
    || (is_acquiring e.state && ltb (length retry_delays) e.attempts)
    || (not (is_acquiring e.state) && leb max_request_failures e.failed_attempts)

module _ (pipeline : Pipeline) (feed : Feed) (processed : Bool) (failure : Failure) (now : ℕ) where
  pub late_branch :
      (e : Episode)
      → is_failed e.state ≡ true
      → record_failed pipeline feed processed failure now e ≡ record_late pipeline feed now e
  unfolding record_failed
  late_branch e late = rw late refl

  pub over_branch :
      (e : Episode)
      → is_failed e.state ≡ false
      → is_over failure e ≡ true
      → record_failed pipeline feed processed failure now e ≡ give_up pipeline feed processed now e
  unfolding record_failed
  over_branch e early over = rw (early, over) refl

  pub retry_branch :
      (e : Episode)
      → is_failed e.state ≡ false
      → is_over failure e ≡ false
      → is_acquiring e.state ≡ true
      → record_failed pipeline feed processed failure now e ≡ retry now e
  unfolding record_failed
  retry_branch e early left claimed = rw (early, left, claimed) refl

  pub asked_branch :
      (e : Episode)
      → is_failed e.state ≡ false
      → is_over failure e ≡ false
      → is_acquiring e.state ≡ false
      → record_failed pipeline feed processed failure now e ≡ record e { next_attempt_at = none }
  unfolding record_failed
  asked_branch e early left asked = rw (early, left, asked) refl
