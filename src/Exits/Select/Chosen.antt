-- ===== src/Exits/Select/Chosen.antt =====
-- What server an exit gets by its locations (modules/exits/select.go: tiers, choose).
use Prim.Native.String.{String}
use solstein.Base.{
  ℕ, zero, suc, ◌≡◌, refl, sym, subst, ◌⊎◌, inl, inr, Bool, true, false, not, ◌&&◌, Option, some,
  some-injective, List, [], ◌∷◌, ◌++◌, get_elem?, All, Bool-cases, arith,
}
use solstein.Exits.Health.{Health}
use solstein.Exits.Select.{
  Server, Location, Exit, ExitState, filter, names_of, is_among, allowed, matches, tier_at,
  tiers_from, tiers, chosen, choose,
}
use solstein.Exits.Select.Best.{IsBest, choose_from-IsBest, when_negated, list-cases}
use solstein.Exits.Select.Filter.{filter-All, In-All, sort_by_name-All}

abbrev is_allowed : Exit → Server → Bool
is_allowed exit s = not (is_among s.country exit.exclude)

allowed-All :
    (exit : Exit) (ss : List Server) → All (λ s. is_allowed exit s ≡ true) (allowed exit ss)
unfolding allowed
allowed-All exit ss =
    sort_by_name-All (λ s. is_allowed exit s ≡ true) (filter (is_allowed exit) ss)
      (filter-All (is_allowed exit) ss)

only_tier :
    (exit : Exit) (servers : List Server) (place : ℕ) {tier : List Server}
    → get_elem? (allowed exit servers ∷ []) place ≡ some tier
    → All (λ s. is_allowed exit s ≡ true) tier
only_tier exit servers zero e =
    subst (All (λ s. is_allowed exit s ≡ true)) (some-injective _ _ e) (allowed-All exit servers)
only_tier exit servers (suc place) e = absurd cc

module _ (equal_fold : String → String → Bool) (random : ℕ → ℕ) where
  -- A tier of servers that match one of the locations, the tier's, which is the first if the exit is
  -- strict.
  pub record IsOf (exit : Exit) (locations : List Location) (place : ℕ) (tier : List Server)
      : Type 0 where
    pub location : Location
    pub at : get_elem? locations place ≡ some location
    pub matching : All (λ s. matches equal_fold random s location ≡ true) tier
    pub first_only : exit.strict ≡ true → place ≡ 0

  tier_at-matches :
      (location : Location) (placed : List String) (ss : List Server)
      → All
          (λ s. matches equal_fold random s location ≡ true)
          (tier_at equal_fold random location placed ss)
  unfolding tier_at
  tier_at-matches location placed [] = tt
  tier_at-matches location placed (s ∷ ss) =
      elim (Bool-cases (not (is_among s.name placed) && matches equal_fold random s location)) [
        | inl takes ↦
            rw takes (ground (arith, takes), tier_at-matches location (s.name ∷ placed) ss)
        | inr skips ↦ rw skips (tier_at-matches location placed ss)
      ]

  tier_at-All :
      (P : Server → Type 0) (location : Location) (placed : List String) (ss : List Server)
      → All P ss
      → All P (tier_at equal_fold random location placed ss)
  unfolding tier_at
  tier_at-All P location placed [] h = tt
  tier_at-All P location placed (s ∷ ss) (h, hs) =
      elim (Bool-cases (not (is_among s.name placed) && matches equal_fold random s location)) [
        | inl takes ↦ rw takes (h, tier_at-All P location (s.name ∷ placed) ss hs)
        | inr skips ↦ rw skips (tier_at-All P location placed ss hs)
      ]

  strict_only :
      (P : Server → Type 0) (exit : Exit) (location : Location) (locations : List Location)
      (own : List Server)
      → IsOf exit (location ∷ locations) 0 own × All P own
      → (place : ℕ) {tier : List Server} → get_elem? (own ∷ []) place ≡ some tier
      → IsOf exit (location ∷ locations) place tier × All P tier
  strict_only P exit location locations own head zero e =
      subst (λ t. IsOf exit (location ∷ locations) 0 t × All P t) (some-injective _ _ e) head
  strict_only P exit location locations own head (suc place) e = absurd cc

  loose_more :
      (P : Server → Type 0) (exit : Exit) (location : Location) (locations : List Location)
      (own : List Server)
      → IsOf exit (location ∷ locations) 0 own × All P own
      → (rest : List (List Server)) → exit.strict ≡ false
      → ((j : ℕ) (t : List Server) → get_elem? rest j ≡ some t → IsOf exit locations j t × All P t)
      → (place : ℕ) {tier : List Server} → get_elem? (own ∷ rest) place ≡ some tier
      → IsOf exit (location ∷ locations) place tier × All P tier
  loose_more P exit location locations own head rest loose more zero e =
      subst (λ t. IsOf exit (location ∷ locations) 0 t × All P t) (some-injective _ _ e) head
  loose_more P exit location locations own head rest loose more (suc place) {tier} e =
      let (is, all) = more place tier e in
      (
        record {
          location = is.location;
          at = is.at;
          matching = is.matching;
          first_only = λ strict. absurd (cc (loose, strict));
        },
        all,
      )

  tiers_from-IsOf :
      (P : Server → Type 0) (exit : Exit) (servers : List Server) (placed : List String)
      (locations : List Location) (place : ℕ) {tier : List Server}
      → All P servers
      → get_elem? (tiers_from equal_fold random exit.strict servers placed locations) place
        ≡ some tier
      → IsOf exit locations place tier × All P tier
  unfolding tiers_from
  tiers_from-IsOf P exit servers placed [] place h e = absurd cc
  tiers_from-IsOf P exit servers placed (location ∷ locations) place {tier} h e =
      let own = tier_at equal_fold random location placed servers in
      let rest =
        tiers_from equal_fold random exit.strict servers (names_of own ++ placed) locations in
      let head : IsOf exit (location ∷ locations) 0 own × All P own = (
        record {
          location = location;
          at = refl;
          matching = tier_at-matches location placed servers;
          first_only = λ strict. refl;
        },
        tier_at-All P location placed servers h,
      ) in
      elim (Bool-cases exit.strict) [
        | inl strict ↦
            strict_only P exit location locations own head place (rw (strict, tiers_from) at e)
        | inr loose ↦
            loose_more P exit location locations own head rest loose
              (λ j t e'.
                tiers_from-IsOf P exit servers (names_of own ++ placed) locations j {tier = t} h e')
              place (rw (loose, tiers_from) at e)
      ]

  -- A server that the exit may use.
  pub record IsChosen (exit : Exit) (servers : List Server) (health_of : String → Option Health)
      (now : ℕ) (s : Server) : Type 0 where
    pub best : IsBest equal_fold random health_of now (tiers equal_fold random exit servers) s
    pub not_excluded : is_among s.country exit.exclude ≡ false
    pub located : (exit.locations ≡ []) ⊎ IsOf exit exit.locations best.place best.tier

  tier-IsOf :
      (exit : Exit) (servers : List Server) (place : ℕ) {tier : List Server}
      → get_elem? (tiers equal_fold random exit servers) place ≡ some tier
      → ((exit.locations ≡ []) ⊎ IsOf exit exit.locations place tier)
        × All (λ s. is_allowed exit s ≡ true) tier
  unfolding tiers
  tier-IsOf exit servers place {tier} e = elim (list-cases exit.locations) [
    | inl nowhere ↦ (inl nowhere, only_tier exit servers place (rw (nowhere, tiers) at e))
    | inr (location, more, somewhere) ↦
        let (is, all) =
          tiers_from-IsOf (λ s. is_allowed exit s ≡ true) exit (allowed exit servers) []
            (location ∷ more) place (allowed-All exit servers) (rw (somewhere, tiers) at e) in
        (inr (subst (λ l. IsOf exit l place tier) (sym somewhere) is), all)
  ]

  -- An exit's server is in no excluded country and not benched; it is of the first tier that has a
  -- server not benched. Where the exit has locations, the tier's servers match the tier's location, and
  -- if the exit is strict that is its first one.
  pub choose-IsChosen :
      (exit : Exit) (servers : List Server) (state : ExitState) (health_of : String → Option Health)
      (now : ℕ) {s : Server} {state' : ExitState}
      → choose equal_fold random exit servers state health_of now ≡ chosen s state'
      → IsChosen exit servers health_of now s
  unfolding choose
  choose-IsChosen exit servers state health_of now {s} e =
      let best =
        choose_from-IsBest equal_fold random exit state health_of now
          (tiers equal_fold random exit servers) e in
      let (located, all) = tier-IsOf exit servers best.place best.at in
      record {
        best = best;
        not_excluded =
            when_negated _ (In-All (λ t. is_allowed exit t ≡ true) best.tier s all best.inside);
        located = located;
      }
