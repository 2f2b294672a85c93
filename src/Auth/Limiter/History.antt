-- ===== src/Auth/Limiter/History.antt =====
-- The limiter beside the whole history of attempts (auth/limiter.go).
use Prim.Native.String.{String}
use text.Mathlib.Text.{◌==◌ as str_eq}
use text.Mathlib.TextEquality.{eq_iff}
use solstein.Base.{
  ℕ, ◌≤◌, ◌<◌, ◌≡◌, refl, sym, ap, ◌∙◌, ◌↔◌, subst, inl, inr, true, none, List, [], ◌∷◌, ◌++◌, ltb,
  if◌then◌else◌, length, Bool-cases, arith,
}
use solstein.Auth.Limiter.{
  Limiter, new_limiter, update, recent, prune, blocked, fail, reset, blocked_until,
}

-- One call of the limiter.
pub data Attempt : Type 0 where
  failed : String → ℕ → Attempt
  asked : String → ℕ → ℕ → Attempt
  succeeded : String → Attempt

unfoldable pub step : Limiter → Attempt → Limiter
unfolding fail blocked reset
step limiter (failed key now) = fail limiter key now
step limiter (asked key limit now) = (blocked limiter key limit now).0
step limiter (succeeded key) = reset limiter key

unfoldable pub run : Limiter → List Attempt → Limiter
unfolding step
run limiter [] = limiter
run limiter (a ∷ attempts) = run (step limiter a) attempts

-- The calls are in the order of their times, from `from` to `to`.
abbrev pub InTime : ℕ → ℕ → List Attempt → Type 0
InTime from to [] = from ≤ to
InTime from to (failed key now ∷ attempts) = (from ≤ now) × InTime now to attempts
InTime from to (asked key limit now ∷ attempts) = (from ≤ now) × InTime now to attempts
InTime from to (succeeded key ∷ attempts) = InTime from to attempts

-- All failures of a key since its last success, none forgotten.
abbrev pub failures_of : String → List ℕ → List Attempt → List ℕ
failures_of key times [] = times
failures_of key times (failed k now ∷ attempts) =
    failures_of key (if str_eq k key then times ++ now ∷ [] else times) attempts
failures_of key times (asked k limit now ∷ attempts) = failures_of key times attempts
failures_of key times (succeeded k ∷ attempts) =
    failures_of key (if str_eq k key then [] else times) attempts

recent-append : (now : ℕ) (xs ys : List ℕ) → recent now (xs ++ ys) ≡ recent now xs ++ recent now ys
unfolding recent
recent-append now [] ys = refl
recent-append now (x ∷ xs) ys = ground (arith, recent-append now xs ys)

-- What was pruned before stays out of the window.
recent-recent :
    (now then' : ℕ) (xs : List ℕ) → then' ≤ now → recent now (recent then' xs) ≡ recent now xs
unfolding recent
recent-recent now then' [] le = refl
recent-recent now then' (x ∷ xs) le = ground (arith, recent-recent now then' xs le)

-- The store and the history agree on what counts at any time from `now` on.
abbrev Agrees : ℕ → List ℕ → List ℕ → Type 0
Agrees now stored times = (t : ℕ) → now ≤ t → recent t stored ≡ recent t times

key_eq : (k key : String) → str_eq k key ≡ true → k ≡ key
key_eq k key = (eq_iff k key).0

-- Pruning one key leaves every key's times agreeing.
prune-Agrees :
    (limiter : Limiter) (k key : String) (now from : ℕ) (times : List ℕ)
    → from ≤ now
    → Agrees from (limiter key) times
    → Agrees now (update limiter k (recent now (limiter k)) key) times
prune-Agrees limiter k key now from times le agree t lt = elim (Bool-cases (str_eq k key)) [
  | inl eq ↦ rw eq (
      ap (λ k'. recent t (recent now (limiter k'))) (key_eq k key eq)
      ∙ recent-recent t now (limiter key) lt
      ∙ agree t (omega arith))
  | inr ne ↦ rw ne (agree t (omega arith))
]

fail-Agrees :
    (limiter : Limiter) (k key : String) (now from : ℕ) (times : List ℕ)
    → from ≤ now
    → Agrees from (limiter key) times
    → Agrees now (fail limiter k now key) (if str_eq k key then times ++ now ∷ [] else times)
unfolding fail prune
fail-Agrees limiter k key now from times le agree t lt = elim (Bool-cases (str_eq k key)) [
  | inl eq ↦
      let pruned =
        ap (λ k'. recent t (recent now (limiter k'))) (key_eq k key eq)
        ∙ recent-recent t now (limiter key) lt
        ∙ agree t (omega arith) in
      rw eq (
        recent-append t (recent now (limiter k)) (now ∷ [])
        ∙ ap (λ l. l ++ recent t (now ∷ [])) pruned
        ∙ sym (recent-append t times (now ∷ [])))
  | inr ne ↦ rw ne (agree t (omega arith))
]

reset-Agrees :
    (limiter : Limiter) (k key : String) (now : ℕ) (times : List ℕ)
    → Agrees now (limiter key) times
    → Agrees now (reset limiter k key) (if str_eq k key then [] else times)
unfolding reset
reset-Agrees limiter k key now times agree t lt = elim (Bool-cases (str_eq k key)) [
  | inl eq ↦ rw eq refl
  | inr ne ↦ rw ne (agree t lt)
]

run-Agrees :
    (key : String) (attempts : List Attempt) (limiter : Limiter) (times : List ℕ) (from to : ℕ)
    → InTime from to attempts
    → Agrees from (limiter key) times
    → Agrees to (run limiter attempts key) (failures_of key times attempts)
unfolding blocked prune run step fail
run-Agrees key [] limiter times from to in_time agree = λ t lt. agree t (omega arith)
run-Agrees key (failed k now ∷ attempts) limiter times from to (le, in_time) agree =
    run-Agrees key attempts (fail limiter k now) _ now to in_time
      (fail-Agrees limiter k key now from times le agree)
run-Agrees key (asked k limit now ∷ attempts) limiter times from to (le, in_time) agree =
    run-Agrees key attempts (blocked limiter k limit now).0 times now to in_time
      (prune-Agrees limiter k key now from times le agree)
run-Agrees key (succeeded k ∷ attempts) limiter times from to in_time agree =
    run-Agrees key attempts (reset limiter k) _ from to in_time
      (reset-Agrees limiter k key from times agree)

answer_iff :
    (limit : ℕ) (times : List ℕ)
    → ((if ltb (length times) limit then none else blocked_until times) ≡ none)
      ↔ (length times < limit)
answer_iff limit [] = (λ e. ground (arith, e), λ lt. ground (arith, lt))
answer_iff limit (first ∷ times) = (λ e. ground (arith, e), λ lt. ground (arith, lt))

-- After any attempts in the order of their times, from a new limiter on, a key is let through
-- exactly if fewer of its failures since its last success are in the window than the limit says:
-- what was pruned in between never counts, and what counts was never pruned.
pub blocked_iff :
    (key : String) (limit from now : ℕ) (attempts : List Attempt)
    → InTime from now attempts
    → ((blocked (run new_limiter attempts) key limit now).1 ≡ none)
      ↔ (length (recent now (failures_of key [] attempts)) < limit)
unfolding blocked prune
blocked_iff key limit from now attempts in_time =
    subst
      (λ times.
        ((if ltb (length times) limit then none else blocked_until times) ≡ none)
        ↔ (length (recent now (failures_of key [] attempts)) < limit))
      (sym
        (run-Agrees key attempts new_limiter [] from now in_time (λ t lt. refl) now (omega arith)))
      (answer_iff limit (recent now (failures_of key [] attempts)))
