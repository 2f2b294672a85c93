-- ===== src/Auth/Tests.antt =====
-- Runs of the sign-in limit, and the theorem at them.
mod SignIn
use solstein.Base.{◌≡◌, ◌<◌, ◌↔◌, refl, some, none, List, [], ◌∷◌, length, arith}
use solstein.Auth.Limiter.{new_limiter, recent, blocked, fail, reset, prune, limit_per_user}
use solstein.Auth.Limiter.History.{
  Attempt, failed, asked, succeeded, run, step, failures_of, blocked_iff,
}

-- One second after another, five failures of one user and one of another, who then signs in.
abbrev attempts : List Attempt
attempts =
    failed "ann" 1
    ∷ failed "ann" 2
    ∷ failed "bob" 3
    ∷ asked "ann" 5 4
    ∷ failed "ann" 5
    ∷ succeeded "bob"
    ∷ failed "ann" 6
    ∷ failed "ann" 7
    ∷ []

ann_blocked : (blocked (run new_limiter attempts) "ann" limit_per_user 8).1 ≡ some 900000000001
unfolding run step blocked fail reset prune recent
ann_blocked = refl

bob_allowed : (blocked (run new_limiter attempts) "bob" 1 8).1 ≡ none
unfolding run step blocked fail reset prune recent
bob_allowed = refl

blocked_iff_example :
    ((blocked (run new_limiter attempts) "ann" limit_per_user 8).1 ≡ none)
    ↔ (length (recent 8 (failures_of "ann" [] attempts)) < limit_per_user)
blocked_iff_example = blocked_iff "ann" limit_per_user 0 8 attempts (ground arith)
