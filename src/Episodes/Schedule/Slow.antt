-- ===== src/Episodes/Schedule/Slow.antt =====
-- How the slow retries of a withheld episode end (episodes/pipeline.go, recordOutcome;
-- episodes/status.go, viewOf).
use solstein.Base.{
  ℕ, ◌+◌, ◌≤◌, ◌<◌, ◌≡◌, ◌⊎◌, refl, sym, ap, ◌∙◌, subst, inl, inr, Bool, true, false, none, some,
  List, [], ◌∷◌, ltb, if◌then◌else◌, length, get_or, ltb→lt, Bool-cases, arith,
}
use solstein.Models.{Feed, Episode, failed, is_ready}
use solstein.Episodes.Outcome.{
  Pipeline, PreparedEpisode, Failure, queue_lease, Attempted, prepared, attempt_failed, outcome,
  record_prepared, record_late, raise, withheld_retry_delays,
}
use solstein.Episodes.Outcome.Branches.{late_branch}
use solstein.Episodes.Store.{lease}
use solstein.Episodes.Status.{status_of, given_up}
use solstein.Episodes.Schedule.{due_from, slow_attempts}

-- Withheld, in the feed but for that, and after `late` slow retries.
pub record IsWithheld (late : ℕ) (e : Episode) : Type 0 where
  pub state : e.state ≡ failed
  pub withheld : e.withheld ≡ true
  pub hidden : e.hidden ≡ false
  pub late_retries : e.late_retries ≡ late

-- Nothing is scheduled any more: the episode has its file, or is given up for good.
abbrev pub IsOver : Episode → Type 0
IsOver e =
    (e.next_attempt_at ≡ none)
    × ((is_ready e.state ≡ true) ⊎ ((now : ℕ) → status_of true false now e ≡ (given_up, none)))

over_stays :
    (pipeline : Pipeline) (feed : Feed) (processed : Bool) (results : List (ℕ × Attempted × ℕ))
    (now : ℕ) (e : Episode)
    → e.next_attempt_at ≡ none
    → slow_attempts pipeline feed processed results now e ≡ (e, now)
unfolding slow_attempts
over_stays pipeline feed processed [] now e h = refl
over_stays pipeline feed processed ((wait, result, time) ∷ results) now e h = rw h refl

given_up_lem :
    (now : ℕ) (e : Episode)
    → IsWithheld (length withheld_retry_delays) e
    → e.next_attempt_at ≡ none
    → status_of true false now e ≡ (given_up, none)
unfolding status_of
given_up_lem now e is unscheduled =
    rw (is.state, is.withheld, is.hidden, is.late_retries, unscheduled) refl

module _ (pipeline : Pipeline) (feed : Feed) (processed : Bool) where
  late_again :
      (failure : Failure) (now until : ℕ) (e : Episode)
      → e.state ≡ failed
      → outcome pipeline feed processed now (attempt_failed failure) (lease until e)
        ≡ record_late pipeline feed now (raise failure (lease until e))
  unfolding outcome
  late_again failure now until e eq =
      late_branch pipeline feed processed failure now (raise failure (lease until e)) (rw eq refl)

  late-IsWithheld :
      (failure : Failure) (now until late : ℕ) (e : Episode)
      → IsWithheld late e
      → IsWithheld (late + 1) (record_late pipeline feed now (raise failure (lease until e)))
  unfolding record_late
  late-IsWithheld failure now until late e is = record {
    state = is.state;
    withheld = is.withheld;
    hidden = is.hidden;
    late_retries = omega (arith, is.late_retries);
  }

  next_of_late :
      (failure : Failure) (now until late : ℕ) (e : Episode)
      → IsWithheld late e
      → (record_late pipeline feed now (raise failure (lease until e))).next_attempt_at ≡ (
          if ltb (late + 1) (length withheld_retry_delays)
          then some (now + get_or withheld_retry_delays (late + 1) 0)
          else none)
  unfolding record_late
  next_of_late failure now until late e is = rw (is.withheld, is.late_retries) refl

  goes_on :
      (wait : ℕ) (result : Attempted) (time : ℕ) (results : List (ℕ × Attempted × ℕ)) (now t : ℕ)
      (e : Episode)
      → e.state ≡ failed
      → e.next_attempt_at ≡ some t
      → slow_attempts pipeline feed processed ((wait, result, time) ∷ results) now e
        ≡ slow_attempts pipeline feed processed results
            (due_from now e.next_attempt_at + wait + time)
            (outcome pipeline feed processed
              (due_from now e.next_attempt_at + wait + time)
              result
              (lease (due_from now e.next_attempt_at + wait + queue_lease) e))
  unfolding slow_attempts
  goes_on wait result time results now t e eq next = rw (next, eq) refl

  prepared_next :
      (result : PreparedEpisode) (now : ℕ) (e : Episode)
      → (outcome pipeline feed processed now (prepared result) e).next_attempt_at ≡ none
  unfolding outcome record_prepared
  prepared_next result now e = refl

  prepared_state :
      (result : PreparedEpisode) (now : ℕ) (e : Episode)
      → is_ready (outcome pipeline feed processed now (prepared result) e).state ≡ true
  unfolding outcome record_prepared
  prepared_state result now e = refl

  -- A withheld episode that no rule hides, with a slow retry scheduled and some left, has nothing
  -- scheduled after results for all of those: it is ready, or the page shows that it is given up.
  pub slow_attempts-IsOver :
      (results : List (ℕ × Attempted × ℕ)) (now t late : ℕ) (e : Episode)
      → IsWithheld late e
      → e.next_attempt_at ≡ some t
      → late < length withheld_retry_delays
      → length withheld_retry_delays ≤ late + length results
      → IsOver (slow_attempts pipeline feed processed results now e).0
  slow_attempts-IsOver [] now t late e is next left enough = absurd (omega arith)
  slow_attempts-IsOver ((wait, prepared result, time) ∷ results) now t late e is next left enough =
      let start = due_from now e.next_attempt_at + wait in
      let after =
        outcome pipeline feed processed (start + time) (prepared result)
          (lease (start + queue_lease) e) in
      subst (λ (x : Episode × ℕ). IsOver x.0)
        (sym (
          goes_on wait (prepared result) time results now t e is.state next
          ∙ over_stays pipeline feed processed results (start + time) after
              (prepared_next result (start + time) (lease (start + queue_lease) e))))
        (
          prepared_next result (start + time) (lease (start + queue_lease) e),
          inl (prepared_state result (start + time) (lease (start + queue_lease) e)),
        )
  slow_attempts-IsOver ((wait, attempt_failed failure, time) ∷ results) now t late e is next left
        enough =
      let start = due_from now e.next_attempt_at + wait in
      let until = start + queue_lease in
      let end = start + time in
      let again = record_late pipeline feed end (raise failure (lease until e)) in
      let same = late_again failure end until e is.state in
      let withheld = late-IsWithheld failure end until late e is in
      let scheduled = next_of_late failure end until late e is in
      let more_slow = slow_attempts pipeline feed processed results end in
      subst (λ (x : Episode × ℕ). IsOver x.0)
        (sym (
          goes_on wait (attempt_failed failure) time results now t e is.state next
          ∙ ap more_slow same))
        (elim (Bool-cases (ltb (late + 1) (length withheld_retry_delays))) [
          | inl more ↦
              slow_attempts-IsOver results end (end + get_or withheld_retry_delays (late + 1) 0)
                (late + 1) again withheld (rw more at scheduled)
                (ltb→lt (late + 1) (length withheld_retry_delays) more) (omega arith)
          | inr last ↦
              let unscheduled : again.next_attempt_at ≡ none = rw last at scheduled in
              let most : late + 1 ≡ length withheld_retry_delays = ground arith in
              subst (λ (x : Episode × ℕ). IsOver x.0)
                (sym (over_stays pipeline feed processed results end again unscheduled))
                (
                  unscheduled,
                  inr (λ n.
                      given_up_lem n again (subst (λ k. IsWithheld k again) most withheld)
                        unscheduled),
                )
        ])
