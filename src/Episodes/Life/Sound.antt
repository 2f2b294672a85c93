-- ===== src/Episodes/Life/Sound.antt =====
-- The counters of an episode through its life (episodes/pipeline.go).
use solstein.Base.{
  ℕ, ◌+◌, ◌≤◌, ◌<◌, ◌≡◌, refl, sym, ap, subst, inl, inr, Bool, true, false, Option, none, some, ltb,
  length, Bool-cases, arith,
}
use solstein.Models.{
  Feed, Episode, State, discovered, acquiring, processing, ready, failed, is_acquiring, is_failed,
  is_discovered, is_ready,
}
use solstein.Episodes.Outcome.Branches.{
  is_over, late_branch, over_branch, retry_branch, asked_branch,
}
use solstein.Episodes.Outcome.{
  Pipeline, Failure, Attempted, prepared, attempt_failed, retry_delays, withheld_retry_delays,
  record_prepared, record_late, give_up, retry, record_failed, outcome, raise,
}

-- Waiting or being prepared for the first time: each attempt failed, and at most as many as there are
-- delays; a retry time follows a failure.
pub record Waits (attempts failures : ℕ) (withheld : Bool) (next : Option ℕ) : Type 0 where
  pub few : attempts ≤ length retry_delays
  pub all_failed : failures ≡ attempts
  pub visible : withheld ≡ false
  pub after_failure : (t : ℕ) → next ≡ some t → 0 < attempts

-- A withheld episode has a next attempt only while slow retries are left.
pub record Late (late_retries : ℕ) (next : Option ℕ) : Type 0 where
  pub few : late_retries ≤ length withheld_retry_delays
  pub over : late_retries ≡ length withheld_retry_delays → next ≡ none

abbrev pub Sound : State → ℕ → ℕ → ℕ → Bool → Option ℕ → Type 0
Sound discovered attempts failures late withheld next = Waits attempts failures withheld next
Sound acquiring attempts failures late withheld next = Waits attempts failures withheld next
Sound processing attempts failures late withheld next = ⊥
Sound ready attempts failures late withheld next = withheld ≡ false
Sound failed attempts failures late withheld next = withheld ≡ true → Late late next

abbrev pub SoundAt : State → Episode → Type 0
SoundAt s e = Sound s e.attempts e.failed_attempts e.late_retries e.withheld e.next_attempt_at

abbrev pub IsSound : Episode → Type 0
IsSound e = SoundAt e.state e

-- What a job works on: an episode that is claimed, and a failed one only when it was queued.
pub record IsJob (e : Episode) : Type 0 where
  pub sound : IsSound e
  pub taken : is_discovered e.state ≡ false
  pub scheduled : is_failed e.state ≡ true → (t : ℕ) × (e.next_attempt_at ≡ some t)

pub State-failed : (s : State) → is_failed s ≡ true → s ≡ failed
State-failed s h = ground arith

pub State-acquiring : (s : State) → is_acquiring s ≡ true → s ≡ acquiring
State-acquiring s h = ground arith

pub State-discovered : (s : State) → is_discovered s ≡ true → s ≡ discovered
State-discovered s h = ground arith

pub State-ready : (s : State) → is_ready s ≡ true → s ≡ ready
State-ready s h = ground arith

-- The claim at the state that a row is found to have.
pub at_state : (e : Episode) {s : State} → e.state ≡ s → IsSound e → SoundAt s e
at_state e eq is = subst (λ s. SoundAt s e) eq is

pub to_state : (e : Episode) {s : State} → e.state ≡ s → SoundAt s e → IsSound e
to_state e eq is = subst (λ s. SoundAt s e) (sym eq) is

pub left_of :
    (e : Episode) (t : ℕ)
    → e.next_attempt_at ≡ some t
    → Late e.late_retries e.next_attempt_at
    → e.late_retries < length withheld_retry_delays
left_of e t next late = elim (Bool-cases (ltb e.late_retries (length withheld_retry_delays))) [
  | inl less ↦ ground arith
  | inr most ↦ absurd (cc (late.over (ground (arith, late.few)), next))
]

late_lem :
    (pipeline : Pipeline) (feed : Feed) (now : ℕ) (e : Episode)
    → (e.withheld ≡ true → e.late_retries < length withheld_retry_delays)
    → e.withheld ≡ true
    → Late (e.late_retries + 1) (record_late pipeline feed now e).next_attempt_at
unfolding record_late
late_lem pipeline feed now e left held = record {
  few = omega (arith, left held);
  over = λ all. rw held (ground (arith, all));
}

give_up-IsSound :
    (pipeline : Pipeline) (feed : Feed) (processed : Bool) (now : ℕ) (e : Episode)
    → IsSound (give_up pipeline feed processed now e)
unfolding give_up
give_up-IsSound pipeline feed processed now e held = record {
  few = omega arith;
  over = λ all. absurd (omega (arith, all));
}

retry-IsSound :
    (now : ℕ) (e : Episode)
    → 0 < e.attempts
    → e.attempts ≤ length retry_delays
    → e.failed_attempts ≡ e.attempts
    → e.withheld ≡ false
    → IsSound (retry now e)
unfolding retry
retry-IsSound now e pos few same visible = record {
  few = few;
  all_failed = same;
  visible = visible;
  after_failure = λ t eq. pos;
}

module _ (pipeline : Pipeline) (feed : Feed) (processed : Bool) (failure : Failure) (now : ℕ) where
  late-IsSound :
      (e : Episode)
      → IsJob e
      → e.state ≡ failed
      → IsSound (record_failed pipeline feed processed failure now (raise failure e))
  unfolding record_late
  late-IsSound e job eq =
      let (t, next) = job.scheduled (rw eq refl) in
      let is = at_state e eq job.sound in
      let left : e.withheld ≡ true → e.late_retries < length withheld_retry_delays =
        λ held. left_of e t next (is held) in
      let r = raise failure e in
      subst IsSound (sym (late_branch pipeline feed processed failure now r (rw eq refl))) (
        to_state (record_late pipeline feed now r) {s = failed} eq
          (late_lem pipeline feed now r left))

  acquired-IsSound :
      (e : Episode)
      → Waits e.attempts e.failed_attempts e.withheld e.next_attempt_at
      → e.state ≡ acquiring
      → IsSound (record_failed pipeline feed processed failure now (raise failure e))
  acquired-IsSound e waits eq =
      let r = raise failure e in
      elim (Bool-cases (is_over failure r)) [
        | inl over ↦
            subst IsSound
              (sym (over_branch pipeline feed processed failure now r (rw eq refl) over))
              (give_up-IsSound pipeline feed processed now r)
        | inr left ↦
            let few = rw eq at left in
            subst IsSound
              (sym
                (retry_branch pipeline feed processed failure now r (rw eq refl) left (rw eq refl)))
              (retry-IsSound now r (omega arith) (ground (arith, few))
                (omega (arith, waits.all_failed)) waits.visible)
      ]

  asked-IsSound :
      (e : Episode)
      → e.withheld ≡ false
      → e.state ≡ ready
      → IsSound (record_failed pipeline feed processed failure now (raise failure e))
  asked-IsSound e visible eq =
      let r = raise failure e in
      elim (Bool-cases (is_over failure r)) [
        | inl over ↦
            subst IsSound
              (sym (over_branch pipeline feed processed failure now r (rw eq refl) over))
              (give_up-IsSound pipeline feed processed now r)
        | inr left ↦
            subst IsSound
              (sym
                (asked_branch pipeline feed processed failure now r (rw eq refl) left (rw eq refl)))
              (to_state (record r { next_attempt_at = none }) {s = ready} eq visible)
      ]

  failure-IsSound :
      (s : State) (e : Episode)
      → e.state ≡ s
      → IsJob e
      → IsSound (record_failed pipeline feed processed failure now (raise failure e))
  failure-IsSound discovered e eq job = absurd (cc (job.taken, ap is_discovered eq))
  failure-IsSound acquiring e eq job = acquired-IsSound e (at_state e eq job.sound) eq
  failure-IsSound processing e eq job = absurd (at_state e eq job.sound)
  failure-IsSound ready e eq job = asked-IsSound e (at_state e eq job.sound) eq
  failure-IsSound failed e eq job = late-IsSound e job eq

pub outcome-IsSound :
    (pipeline : Pipeline) (feed : Feed) (processed : Bool) (now : ℕ) (result : Attempted)
    (e : Episode)
    → IsJob e
    → IsSound (outcome pipeline feed processed now result e)
unfolding outcome record_prepared
outcome-IsSound pipeline feed processed now (prepared result) e job = refl
outcome-IsSound pipeline feed processed now (attempt_failed failure) e job =
    failure-IsSound pipeline feed processed failure now e.state e refl job
