-- ===== src/Exits/Select/Best.antt =====
-- What server of given tiers an exit gets (modules/exits/select.go, choose).
use Prim.Native.String.{String}
use text.Mathlib.Text.{◌==◌ as str_eq}
use solstein.Base.{
  ℕ, zero, suc, ◌-◌, ◌<◌, ◌≡◌, ◌≢◌, refl, sym, ap, subst, ◌⊎◌, inl, inr, Bool, true, false, not,
  ◌&&◌, Option, some, some-injective, List, [], ◌∷◌, leb, get_elem?, All, Bool-cases, Option-cases,
  arith,
}
use solstein.Exits.Health.{Health, benched, rotation}
use solstein.Exits.Select.{
  Server, Exit, ExitState, filter, tiers, Choice, chosen, no_server, out_of_range, pick, kept,
  choose_from, choose,
}
use solstein.Exits.Select.Filter.{In, filter-In, filter-empty, first_named-In, least_from-In}

pub list-cases {ℓ} :
    {A : Type ℓ} (xs : List A) → (xs ≡ []) ⊎ ((a : A) × (rest : List A) × (xs ≡ a ∷ rest))
list-cases [] = inl refl
list-cases (a ∷ rest) = inr (a, rest, refl)

abbrev server_of : Choice → Server → Server
server_of (chosen server state) default = server
server_of no_server default = default
server_of out_of_range default = default

pub when_negated : (b : Bool) → not b ≡ true → b ≡ false
when_negated true e = absurd cc
when_negated false e = refl

pub when_unnegated : (b : Bool) → not b ≡ false → b ≡ true
when_unnegated true e = refl
when_unnegated false e = absurd cc

All-map {ℓ κ} :
    {A : Type ℓ} (P Q : A → Type κ) (xs : List A) → ((a : A) → P a → Q a) → All P xs → All Q xs
All-map P Q [] f h = tt
All-map P Q (x ∷ xs) f (h, hs) = (f x h, All-map P Q xs f hs)

module _ (equal_fold : String → String → Bool) (random : ℕ → ℕ) where
  pick-In :
      (exit : Exit) (state : ExitState) (health_of : String → Option Health) (now : ℕ)
      (first : Server) (more : List Server) {s : Server}
      → pick equal_fold random exit state health_of now first more ≡ some s
      → In s (first ∷ more)
  unfolding pick
  pick-In exit state health_of now first more {s} e =
      elim (Bool-cases (str_eq exit.selection "random")) [
        | inl is_random ↦ (filter-In _ (first ∷ more) s (_, rw (is_random, pick) at e)).0
        | inr fixed ↦ elim (Bool-cases (str_eq exit.selection "least-failed")) [
          | inl least ↦
              subst (λ t. In t (first ∷ more)) (some-injective _ _ (rw (fixed, least, pick) at e))
                (least_from-In health_of now first more)
          | inr sticky ↦ (0, rw (fixed, sticky, pick) at e)
        ]
      ]

  kept-In :
      (exit : Exit) (state : ExitState) (now : ℕ) (healthy : List Server) {s : Server}
      → kept equal_fold random exit state now healthy ≡ some s
      → In s healthy
  unfolding kept
  kept-In exit state now healthy e =
      elim (Bool-cases (
        not (str_eq state.current "")
        && not (str_eq exit.selection "random" && leb rotation (now - state.chosen_at)))) [
          | inl keep ↦ first_named-In state.current healthy (rw (keep, kept) at e)
          | inr change ↦ absurd (cc (rw (change, kept) at e))
        ]

  chosen-In :
      (exit : Exit) (state : ExitState) (health_of : String → Option Health) (now : ℕ)
      (tier : List Server) (rest : List (List Server)) (first : Server) (more : List Server)
      {s : Server} {state' : ExitState}
      → filter (λ t. not (benched (health_of t.name) now)) tier ≡ first ∷ more
      → choose_from equal_fold random exit state health_of now (tier ∷ rest) ≡ chosen s state'
      → In s (first ∷ more)
  unfolding choose_from
  chosen-In exit state health_of now tier rest first more {s} some' e =
      elim (Option-cases (kept equal_fold random exit state now (first ∷ more))) [
        | inr (server, keep) ↦
            subst (λ t. In t (first ∷ more))
              (ap (λ c. server_of c s) (rw (some', keep, choose_from) at e))
              (kept-In exit state now (first ∷ more) keep)
        | inl change ↦
            elim (Option-cases (pick equal_fold random exit state health_of now first more)) [
              | inl out ↦ absurd (cc (rw (some', change, out, choose_from) at e))
              | inr (picked, found) ↦
                  subst (λ t. In t (first ∷ more))
                    (ap (λ c. server_of c s) (rw (some', change, found, choose_from) at e))
                    (pick-In exit state health_of now first more found)
            ]
      ]

  -- A server of the first tier that has one not benched, and not benched.
  pub record IsBest (health_of : String → Option Health) (now : ℕ) (tiers : List (List Server))
      (s : Server) : Type 0 where
    pub place : ℕ
    pub tier : List Server
    pub at : get_elem? tiers place ≡ some tier
    pub inside : In s tier
    pub healthy : benched (health_of s.name) now ≡ false
    pub first :
        (j : ℕ) (before : List Server)
        → j < place
        → get_elem? tiers j ≡ some before
        → All (λ t. benched (health_of t.name) now ≡ true) before

  IsBest-first :
      (health_of : String → Option Health) (now : ℕ) (tier : List Server)
      (rest : List (List Server)) (s : Server)
      → All (λ t. benched (health_of t.name) now ≡ true) tier
      → (best : IsBest health_of now rest s) → (j : ℕ) (before : List Server) → j < suc best.place
      → get_elem? (tier ∷ rest) j ≡ some before
      → All (λ t. benched (health_of t.name) now ≡ true) before
  IsBest-first health_of now tier rest s all best zero before lt e =
      subst (All (λ t. benched (health_of t.name) now ≡ true)) (some-injective _ _ e) all
  IsBest-first health_of now tier rest s all best (suc j) before lt e =
      best.first j before (omega arith) e

  IsBest-later :
      (health_of : String → Option Health) (now : ℕ) (tier : List Server)
      (rest : List (List Server)) (s : Server)
      → All (λ t. benched (health_of t.name) now ≡ true) tier
      → IsBest health_of now rest s
      → IsBest health_of now (tier ∷ rest) s
  IsBest-later health_of now tier rest s all best = record {
    place = suc best.place;
    tier = best.tier;
    at = best.at;
    inside = best.inside;
    healthy = best.healthy;
    first = λ j before lt e. IsBest-first health_of now tier rest s all best j before lt e;
  }

  pub choose_from-IsBest :
      (exit : Exit) (state : ExitState) (health_of : String → Option Health) (now : ℕ)
      (tiers : List (List Server)) {s : Server} {state' : ExitState}
      → choose_from equal_fold random exit state health_of now tiers ≡ chosen s state'
      → IsBest health_of now tiers s
  unfolding choose_from
  choose_from-IsBest exit state health_of now [] e = absurd cc
  choose_from-IsBest exit state health_of now (tier ∷ rest) {s} {state'} e =
      let healthy = filter (λ t. not (benched (health_of t.name) now)) tier in
      elim (list-cases healthy) [
        | inl empty ↦
            IsBest-later health_of now tier rest s
              (All-map _ _ tier (λ t e'. when_unnegated _ e') (filter-empty _ tier empty))
              (choose_from-IsBest exit state health_of now rest (rw (empty, choose_from) at e))
        | inr (first, more, some') ↦
            let inside = chosen-In exit state health_of now tier rest first more some' e in
            let (member, ok) = filter-In _ tier s (subst (λ l. In s l) (sym some') inside) in
            record {
              place = 0;
              tier = tier;
              at = refl;
              inside = member;
              healthy = when_negated _ ok;
              first = λ j before lt e'. absurd (omega arith);
            }
      ]

  here_has_server :
      (exit : Exit) (state : ExitState) (health_of : String → Option Health) (now : ℕ)
      (tier : List Server) (rest : List (List Server)) (first : Server) (more : List Server)
      → filter (λ t. not (benched (health_of t.name) now)) tier ≡ first ∷ more
      → choose_from equal_fold random exit state health_of now (tier ∷ rest) ≢ no_server
  unfolding choose_from
  here_has_server exit state health_of now tier rest first more some' e =
      elim (Option-cases (kept equal_fold random exit state now (first ∷ more))) [
        | inr (server, keep) ↦ cc (rw (some', keep, choose_from) at e)
        | inl change ↦
            elim (Option-cases (pick equal_fold random exit state health_of now first more)) [
              | inl out ↦ cc (rw (some', change, out, choose_from) at e)
              | inr (picked, found) ↦ cc (rw (some', change, found, choose_from) at e)
            ]
      ]

  choose_from-no_server :
      (exit : Exit) (state : ExitState) (health_of : String → Option Health) (now : ℕ)
      (tiers : List (List Server))
      → choose_from equal_fold random exit state health_of now tiers ≡ no_server
      → All (All (λ t. benched (health_of t.name) now ≡ true)) tiers
  unfolding choose_from
  choose_from-no_server exit state health_of now [] e = tt
  choose_from-no_server exit state health_of now (tier ∷ rest) e =
      elim (list-cases (filter (λ t. not (benched (health_of t.name) now)) tier)) [
        | inl empty ↦ (
          All-map _ _ tier (λ t e'. when_unnegated _ e') (filter-empty _ tier empty),
          choose_from-no_server exit state health_of now rest (rw (empty, choose_from) at e),
        )
        | inr (first, more, some') ↦
            absurd (here_has_server exit state health_of now tier rest first more some' e)
      ]

  -- Where no server is chosen for want of one, every server of every tier is benched.
  pub choose-no_server :
      (exit : Exit) (servers : List Server) (state : ExitState) (health_of : String → Option Health)
      (now : ℕ)
      → choose equal_fold random exit servers state health_of now ≡ no_server
      → All
          (All (λ t. benched (health_of t.name) now ≡ true))
          (tiers equal_fold random exit servers)
  unfolding choose
  choose-no_server exit servers state health_of now e =
      choose_from-no_server exit state health_of now (tiers equal_fold random exit servers) e
