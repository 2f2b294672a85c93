-- ===== src/Episodes/Schedule/First.antt =====
-- How a new episode's attempts end (episodes/pipeline.go, recordOutcome).
use solstein.Base.{
  ℕ, zero, suc, ◌+◌, ◌-◌, ◌≤◌, ◌<◌, ◌≡◌, refl, sym, ap, subst, inl, inr, Bool, true, false, ◌||◌,
  List, [], ◌∷◌, ltb, length, get_or, drop, ltb_false→le, sum, Bool-cases, arith,
}
use solstein.Models.{Feed, Episode, State, discovered, is_failed, is_discovered, is_ready}
use solstein.Episodes.Outcome.{
  Pipeline, Failure, Attempted, prepared, attempt_failed, outcome, record_failed, give_up, retry,
  raise, retry_delays,
}
use solstein.Episodes.Outcome.Branches.{is_over, over_branch, retry_branch}
use solstein.Episodes.Store.{acquire}
use solstein.Episodes.Schedule.{due_from, took, first_attempts}

abbrev pub is_settled : Episode → Bool
is_settled e = is_ready e.state || is_failed e.state

settled_stays :
    (pipeline : Pipeline) (feed : Feed) (processed : Bool) (results : List (ℕ × Attempted × ℕ))
    (now : ℕ) (e : Episode)
    → is_discovered e.state ≡ false
    → first_attempts pipeline feed processed results now e ≡ (e, now)
unfolding first_attempts
settled_stays pipeline feed processed [] now e h = refl
settled_stays pipeline feed processed ((wait, result, time) ∷ results) now e h = rw h refl

settled_other : (e : Episode) → is_settled e ≡ true → is_discovered e.state ≡ false
settled_other e h = of_state e.state h
  where
    of_state : (s : State) → (is_ready s || is_failed s) ≡ true → is_discovered s ≡ false
    of_state s h = ground arith

sum-drop-suc :
    (xs : List ℕ) (k : ℕ) → k < length xs → sum (drop k xs) ≡ get_or xs k 0 + sum (drop (suc k) xs)
sum-drop-suc [] k lt = absurd (omega arith)
sum-drop-suc (x ∷ xs) zero lt = refl
sum-drop-suc (x ∷ xs) (suc k) lt = sum-drop-suc xs k (omega arith)

next_drop :
    (xs : List ℕ) (k : ℕ) → k < length xs → sum (drop k xs) ≡ get_or xs k 0 + sum (drop (k + 1) xs)
next_drop xs k lt =
    let next : suc k ≡ k + 1 = omega arith in
    subst (λ (j : ℕ). sum (drop k xs) ≡ get_or xs k 0 + sum (drop j xs)) next (sum-drop-suc xs k lt)

-- Settled by a time, and by the delays that were left at most later than it.
abbrev pub Ends : ℕ → ℕ → Episode × ℕ → Type 0
Ends latest attempts end =
    (is_settled end.0 ≡ true) × (end.1 ≤ latest + sum (drop attempts retry_delays))

module _ (pipeline : Pipeline) (feed : Feed) (processed : Bool) where
  -- The attempt settles the episode.
  last_Ends :
      (results : List (ℕ × Attempted × ℕ)) (latest attempts now : ℕ) (e : Episode)
      → is_settled e ≡ true
      → now ≤ latest
      → Ends latest attempts (first_attempts pipeline feed processed results now e)
  last_Ends results latest attempts now e h le =
      rw (settled_stays pipeline feed processed results now e (settled_other e h)) (h, omega arith)

  over_is_settled :
      (failure : Failure) (now : ℕ) (e : Episode)
      → is_failed e.state ≡ false
      → is_over failure e ≡ true
      → is_settled (record_failed pipeline feed processed failure now e) ≡ true
  unfolding give_up
  over_is_settled failure now e early over =
      rw (over_branch pipeline feed processed failure now e early over) refl

  retried :
      (failure : Failure) (now : ℕ) (e : Episode)
      → is_over failure (raise failure (acquire e)) ≡ false
      → outcome pipeline feed processed now (attempt_failed failure) (acquire e)
        ≡ retry now (raise failure (acquire e))
  unfolding outcome
  retried failure now e left =
      retry_branch pipeline feed processed failure now (raise failure (acquire e)) refl left refl

  left_lem :
      (failure : Failure) (e : Episode)
      → is_over failure (raise failure (acquire e)) ≡ false
      → ltb (length retry_delays) (e.attempts + 1) ≡ false
  left_lem failure e left = ground arith

  -- A discovered episode that has had at most five attempts, its next one due by `latest`, is ready or
  -- failed after any results that make more than five attempts with those before; and at the latest
  -- when, after `latest`, the attempts, the waits of each for a worker, and the delays that were left
  -- have passed. How long those waits are is left open.
  pub first_attempts-Ends :
      (results : List (ℕ × Attempted × ℕ)) (latest now : ℕ) (e : Episode)
      → e.state ≡ discovered
      → e.attempts ≤ length retry_delays
      → length retry_delays < e.attempts + length results
      → due_from now e.next_attempt_at ≤ latest
      → Ends
          (latest + took results)
          e.attempts
          (first_attempts pipeline feed processed results now e)
  unfolding first_attempts retry
  first_attempts-Ends [] latest now e found few enough le = absurd (omega arith)
  first_attempts-Ends ((wait, prepared result, time) ∷ results) latest now e found few enough le =
      let start = due_from now e.next_attempt_at + wait in
      rw found (
        last_Ends results (latest + (wait + time + took results)) e.attempts (start + time)
          (outcome pipeline feed processed (start + time) (prepared result) (acquire e)) refl
          (omega arith))
  first_attempts-Ends ((wait, attempt_failed failure, time) ∷ results) latest now e found few enough
        le =
      let start = due_from now e.next_attempt_at + wait in
      elim (Bool-cases (is_over failure (raise failure (acquire e)))) [
        | inl over ↦ rw found (
            last_Ends results (latest + (wait + time + took results)) e.attempts (start + time)
              (outcome pipeline feed processed (start + time) (attempt_failed failure) (acquire e))
              (over_is_settled failure (start + time) (raise failure (acquire e)) refl over)
              (omega arith))
        | inr left ↦
            let delay = get_or retry_delays (e.attempts + 1 - 1) 0 in
            let delay_eq : delay ≡ get_or retry_delays e.attempts 0 =
              ap (λ (k : ℕ). get_or retry_delays k 0) (omega arith) in
            let more : e.attempts + 1 ≤ length retry_delays =
              ltb_false→le (length retry_delays) (e.attempts + 1) (left_lem failure e left) in
            let split = next_drop retry_delays e.attempts (omega (arith, more)) in
            let rest =
              first_attempts-Ends results (latest + (wait + time + delay)) (start + time)
                (retry (start + time) (raise failure (acquire e))) refl more (omega arith)
                (omega arith) in
            rw found (
              subst
                (λ x.
                  Ends (latest + (wait + time + took results)) e.attempts
                    (first_attempts pipeline feed processed results (start + time) x))
                (sym (retried failure (start + time) e left))
                (rest.0, omega (arith, rest.1, delay_eq, split)))
      ]
