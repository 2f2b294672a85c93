-- ===== src/Exits/Budget.antt =====
-- Whether exits can all have a tunnel at once (modules/exits/budget.go, ExitsFit). The module's exits
-- are named with their providers, the pools are by provider with their limits, 0 for none; a map from
-- providers to exits is a list with one entry for each. The text of the reason is left out.
pub mod Fit
use Prim.Native.String.{String}
use text.Mathlib.Text.{◌==◌ as str_eq}
use solstein.Base.{
  ℕ, Bool, true, false, not, ◌&&◌, ◌||◌, Option, none, some, List, [], ◌∷◌, ◌++◌, ◌==◌, leb,
  if◌then◌else◌, length,
}

pub record Module : Type 0 where
  pub exits : List (String × String)
  pub limits : List (String × ℕ)

unfoldable pub find {ℓ} : {A : Type ℓ} → List (String × A) → String → Option A
find [] name = none
find ((n, a) ∷ rest) name = let found = find rest name in if str_eq n name then some a else found

unfoldable pub lists : List String → String → Bool
lists [] name = false
lists (n ∷ names) name = str_eq n name || lists names name

-- The provider of an exit that takes a tunnel of a pool.
unfoldable pub provider_of : Module → String → Option String
unfolding find
provider_of config name = elim (find config.exits name) [
  | none ↦ none
  | some provider ↦ elim (find config.limits provider) [ none ↦ none | some limit ↦ some provider ]
]

-- One more exit of a provider, once.
unfoldable pub want : String → String → List (String × List String) → List (String × List String)
unfolding lists
want provider name [] = (provider, name ∷ []) ∷ []
want provider name ((p, names) ∷ wanted) =
    let rest = want provider name wanted in
    if str_eq p provider
    then (p, if lists names name then names else names ++ name ∷ []) ∷ wanted
    else (p, names) ∷ rest

unfoldable pub want_all :
    Module → List String → List (String × List String) → List (String × List String)
want_all config [] wanted = wanted
want_all config (name ∷ names) wanted = elim (provider_of config name) [
  | none ↦ want_all config names wanted
  | some provider ↦ want_all config names (want provider name wanted)
]

-- Every provider has no limit, or room for its exits.
unfoldable pub all_fit : Module → List (String × List String) → Bool
all_fit config [] = true
all_fit config ((provider, names) ∷ wanted) =
    let rest = all_fit config wanted in
    elim (find config.limits provider) [
      | none ↦ rest
      | some limit ↦ if limit == 0 || leb (length names) limit then rest else false
    ]

unfoldable pub exits_fit : Module → List String → Bool
exits_fit config names = all_fit config (want_all config names [])
