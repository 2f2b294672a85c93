-- ===== src/Exits/Select.antt =====
-- The server that an exit uses (modules/exits/select.go: matches, tiers, choose). Comparing names
-- without case (strings.EqualFold) and the random number generator are parameters.
pub mod Filter
pub mod Best
pub mod Chosen
use Prim.Native.String.{String, compare}
use text.Mathlib.Text.{◌==◌ as str_eq, is_le}
use solstein.Base.{
  ℕ, suc, ◌+◌, ◌-◌, Bool, true, false, not, ◌&&◌, ◌||◌, Option, none, some, List, [], ◌∷◌, ◌++◌,
  ltb, leb, if◌then◌else◌, length, get_elem?,
}
use solstein.Exits.Geography.{in_area, in_continent}
use solstein.Exits.Health.{Health, benched, recent_failures, rotation}

-- What the choice reads of a server.
pub record Server : Type 0 where
  pub name : String
  pub server_name : String
  pub hostname : String
  pub country : String
  pub city : String

pub record Location : Type 0 where
  pub kind : String
  pub country : String
  pub city : String
  pub name : String

pub record Exit : Type 0 where
  pub provider : String
  pub locations : List Location
  pub strict : Bool
  pub exclude : List String
  pub selection : String

pub record ExitState : Type 0 where
  pub current : String
  pub chosen_at : ℕ

unfoldable pub is_among : String → List String → Bool
is_among name [] = false
is_among name (n ∷ ns) = str_eq n name || is_among name ns

unfoldable pub filter {ℓ} : {A : Type ℓ} → (A → Bool) → List A → List A
filter test [] = []
filter test (a ∷ rest) = let kept = filter test rest in if test a then a ∷ kept else kept

-- Go orders strings by their bytes in UTF-8, which is the order of the code points.
abbrev pub str_le : String → String → Bool
str_le s t = is_le (compare s t)

-- By name.
unfoldable pub insert : Server → List Server → List Server
insert s [] = s ∷ []
insert s (t ∷ ts) = let rest = insert s ts in if str_le s.name t.name then s ∷ t ∷ ts else t ∷ rest

unfoldable pub sort_by_name : List Server → List Server
sort_by_name [] = []
sort_by_name (s ∷ ss) = insert s (sort_by_name ss)

unfoldable pub names_of : List Server → List String
names_of [] = []
names_of (s ∷ ss) = s.name ∷ names_of ss

-- The servers that no excluded country has.
unfoldable pub allowed : Exit → List Server → List Server
allowed exit servers = sort_by_name (filter (λ s. not (is_among s.country exit.exclude)) servers)

-- The first with the fewest recent failures.
unfoldable pub least_from : (String → Option Health) → ℕ → Server → List Server → Server
least_from health_of now best [] = best
least_from health_of now best (s ∷ ss) =
    let fewer =
      ltb (recent_failures (health_of s.name) now) (recent_failures (health_of best.name) now) in
    least_from health_of now (if fewer then s else best) ss

unfoldable pub first_named : String → List Server → Option Server
first_named name [] = none
first_named name (s ∷ ss) =
    let rest = first_named name ss in if str_eq s.name name then some s else rest

-- The result: a server, with the exit's state, or none.
pub data Choice : Type 0 where
  chosen : Server → ExitState → Choice
  no_server : Choice
  out_of_range : Choice

module _ (equal_fold : String → String → Bool) (random : ℕ → ℕ) where
  unfoldable pub matches : Server → Location → Bool
  matches server location =
      if str_eq location.kind "server"
      then equal_fold server.name location.name
        || ((not (str_eq server.server_name "") && equal_fold server.server_name location.name)
            || (not (str_eq server.hostname "") && equal_fold server.hostname location.name))
      else if str_eq location.kind "city"
      then str_eq server.country location.country && equal_fold server.city location.city
      else if str_eq location.kind "country"
      then str_eq server.country location.country
      else if str_eq location.kind "area"
      then in_area server.country location.name
      else if str_eq location.kind "continent"
      then in_continent server.country location.name
      else false

  -- The servers at a location that are not placed yet; a name is placed once.
  unfoldable pub tier_at : Location → List String → List Server → List Server
  tier_at location placed [] = []
  tier_at location placed (s ∷ ss) =
      let taken = tier_at location (s.name ∷ placed) ss in
      let skipped = tier_at location placed ss in
      if not (is_among s.name placed) && matches s location then s ∷ taken else skipped

  unfoldable pub tiers_from : Bool → List Server → List String → List Location → List (List Server)
  tiers_from strict servers placed [] = []
  tiers_from strict servers placed (location ∷ locations) =
      let tier = tier_at location placed servers in
      let rest = tiers_from strict servers (names_of tier ++ placed) locations in
      if strict then tier ∷ [] else tier ∷ rest

  unfoldable pub tiers : Exit → List Server → List (List Server)
  tiers exit servers = elim exit.locations [
    | [] ↦ allowed exit servers ∷ []
    | location ∷ locations ↦ tiers_from exit.strict (allowed exit servers) [] (location ∷ locations)
  ]

  -- The server of a tier's healthy ones, by the exit's selection.
  unfoldable pub pick :
      Exit → ExitState → (String → Option Health) → ℕ → Server → List Server → Option Server
  pick exit state health_of now first more =
      let options =
        filter (λ s. not (str_eq s.name state.current && ltb 1 (length (first ∷ more))))
          (first ∷ more) in
      if str_eq exit.selection "random"
      then get_elem? options (random (length options))
      else if str_eq exit.selection "least-failed"
      then some (least_from health_of now first more)
      else some first

  unfoldable pub kept : Exit → ExitState → ℕ → List Server → Option Server
  kept exit state now healthy =
      if not (str_eq state.current "")
        && not (str_eq exit.selection "random" && leb rotation (now - state.chosen_at))
      then first_named state.current healthy
      else none

  unfoldable pub choose_from :
      Exit → ExitState → (String → Option Health) → ℕ → List (List Server) → Choice
  choose_from exit state health_of now [] = no_server
  choose_from exit state health_of now (tier ∷ tiers) =
      let rest = choose_from exit state health_of now tiers in
      elim (filter (λ s. not (benched (health_of s.name) now)) tier) [
        | [] ↦ rest
        | first ∷ more ↦ elim (kept exit state now (first ∷ more)) [
          | some server ↦ chosen server state
          | none ↦ elim (pick exit state health_of now first more) [
            | none ↦ out_of_range
            | some picked ↦ chosen picked (record { current = picked.name; chosen_at = now })
          ]
        ]
      ]

  unfoldable pub choose : Exit → List Server → ExitState → (String → Option Health) → ℕ → Choice
  choose exit servers state health_of now =
      choose_from exit state health_of now (tiers exit servers)
