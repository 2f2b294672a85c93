-- ===== src/Auth/Limiter.antt =====
-- Failed attempts per key (auth/limiter.go). The map is a function to the failures' times, where
-- no failures stand for a key that is absent: prune deletes a key with none. Times are nanoseconds.
pub mod History
use Prim.Native.String.{String}
use text.Mathlib.Text.{◌==◌ as str_eq}
use solstein.Base.{
  ℕ, ◌+◌, ◌-◌, ◌*◌, Bool, true, false, Option, none, some, List, [], ◌∷◌, ◌++◌, ltb, leb,
  if◌then◌else◌, length,
}

-- Fifteen minutes.
abbrev pub limit_window : ℕ
limit_window = 15 * 60 * 1000000000

abbrev pub limit_per_user : ℕ
limit_per_user = 5

abbrev pub limit_per_ip : ℕ
limit_per_ip = 20

abbrev pub Limiter : Type 0
Limiter = String → List ℕ

abbrev pub new_limiter : Limiter
new_limiter key = []

abbrev pub update : Limiter → String → List ℕ → Limiter
update limiter key times k = if str_eq key k then times else limiter k

-- The failures at less than the window before `now`.
unfoldable pub recent : ℕ → List ℕ → List ℕ
recent now [] = []
recent now (at ∷ times) =
    let rest = recent now times in if ltb (now - at) limit_window then at ∷ rest else rest

unfoldable pub prune : Limiter → String → ℕ → Limiter × List ℕ
unfolding recent
prune limiter key now = let times = recent now (limiter key) in (update limiter key times, times)

-- The end of the window of the first failure; a limit of zero would read past the end (a panic).
abbrev pub blocked_until : List ℕ → Option ℕ
blocked_until [] = some limit_window
blocked_until (first ∷ times) = some (first + limit_window)

-- Whether a key has reached its limit, and until when.
unfoldable pub blocked : Limiter → String → ℕ → ℕ → Limiter × Option ℕ
unfolding prune
blocked limiter key limit now =
    let (limiter', times) = prune limiter key now in
    (limiter', if ltb (length times) limit then none else blocked_until times)

unfoldable pub fail : Limiter → String → ℕ → Limiter
unfolding prune
fail limiter key now =
    let (limiter', times) = prune limiter key now in update limiter' key (times ++ now ∷ [])

unfoldable pub reset : Limiter → String → Limiter
reset limiter key = update limiter key []
