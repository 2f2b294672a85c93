-- ===== src/Episodes/Schedule.antt =====
-- An episode through its attempts (episodes/pipeline.go, ProcessNext, recordOutcome). Given for each are
-- how long a worker leaves it after it was due, for a wake, the ticker or other episodes; what the
-- attempt comes to; and how long it takes.
pub mod First
pub mod Slow
use solstein.Base.{
  ℕ, ◌+◌, ◌≤◌, max, Bool, true, false, Option, none, some, List, [], ◌∷◌, if◌then◌else◌,
}
use solstein.Models.{Feed, Episode, is_discovered, is_failed}
use solstein.Episodes.Outcome.{Pipeline, Attempted, outcome, queue_lease}
use solstein.Episodes.Store.{acquire, lease}

-- The time from which a worker may take an episode that is next tried at a time, or at once.
abbrev pub due_from : ℕ → Option ℕ → ℕ
due_from now none = now
due_from now (some t) = max now t

-- The time that the attempts and the waits for a worker take.
abbrev pub took : List (ℕ × Attempted × ℕ) → ℕ
took [] = 0
took ((wait, result, time) ∷ results) = wait + time + took results

-- A discovered episode is claimed and prepared until it is not discovered any more: the episode, and
-- when its last attempt was over.
unfoldable pub first_attempts :
    Pipeline → Feed → Bool → List (ℕ × Attempted × ℕ) → ℕ → Episode → Episode × ℕ
unfolding outcome
first_attempts pipeline feed processed [] now e = (e, now)
first_attempts pipeline feed processed ((wait, result, time) ∷ results) now e =
    let start = due_from now e.next_attempt_at + wait in
    let after = outcome pipeline feed processed (start + time) result (acquire e) in
    let rest = first_attempts pipeline feed processed results (start + time) after in
    if is_discovered e.state then rest else (e, now)

-- A failed episode is tried again as long as it has a next attempt.
unfoldable pub slow_attempts :
    Pipeline → Feed → Bool → List (ℕ × Attempted × ℕ) → ℕ → Episode → Episode × ℕ
unfolding outcome
slow_attempts pipeline feed processed [] now e = (e, now)
slow_attempts pipeline feed processed ((wait, result, time) ∷ results) now e =
    let start = due_from now e.next_attempt_at + wait in
    let claimed = lease (start + queue_lease) e in
    let after = outcome pipeline feed processed (start + time) result claimed in
    let rest = slow_attempts pipeline feed processed results (start + time) after in
    elim e.next_attempt_at [
      | none ↦ (e, now)
      | some t ↦ if is_failed e.state then rest else (e, now)
    ]
