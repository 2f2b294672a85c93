-- ===== src/Exits/Select/Filter.antt =====
-- The lists of servers that the choice goes through (modules/exits/select.go).
use Prim.Native.String.{String}
use text.Mathlib.Text.{◌==◌ as str_eq}
use solstein.Base.{
  ℕ, zero, suc, ◌≡◌, refl, sym, ap, ◌∙◌, subst, inl, inr, Bool, true, false, Option, some,
  some-injective, List, [], ◌∷◌, ltb, get_elem?, All, Bool-cases,
}
use solstein.Exits.Health.{Health, recent_failures}
use solstein.Exits.Select.{str_le, Server, filter, insert, sort_by_name, least_from, first_named}

-- An element of the list.
abbrev pub In {ℓ} : {A : Type ℓ} → A → List A → Type ℓ
In a as' = (i : ℕ) × (get_elem? as' i ≡ some a)

module _ {ℓ} {A : Type ℓ} where
  pub In-head : (a : A) (rest : List A) → In a (a ∷ rest)
  In-head a rest = (0, refl)

  pub In-tail : (a b : A) (rest : List A) → In a rest → In a (b ∷ rest)
  In-tail a b rest (i, e) = (suc i, e)

  filter_head :
      (test : A → Bool) (x : A) (xs : List A) (a : A)
      → test x ≡ true
      → (In a (filter test xs) → In a xs × (test a ≡ true))
      → (i : ℕ) → get_elem? (x ∷ filter test xs) i ≡ some a
      → In a (x ∷ xs) × (test a ≡ true)
  filter_head test x xs a passed rest zero e =
      let same = some-injective _ _ e in ((0, ap (λ b. some b) same), ap test (sym same) ∙ passed)
  filter_head test x xs a passed rest (suc i) e =
      let (found, ok) = rest (i, e) in (In-tail a x xs found, ok)

  pub filter-In :
      (test : A → Bool) (xs : List A) (a : A) → In a (filter test xs) → In a xs × (test a ≡ true)
  unfolding filter
  filter-In test [] a (i, e) = absurd cc
  filter-In test (x ∷ xs) a (i, e) = elim (Bool-cases (test x)) [
    | inl passed ↦ filter_head test x xs a passed (filter-In test xs a) i (rw (passed, filter) at e)
    | inr failed ↦
        let (found, ok) = filter-In test xs a (i, rw (failed, filter) at e) in
        (In-tail a x xs found, ok)
  ]

  pub filter-empty :
      (test : A → Bool) (xs : List A) → filter test xs ≡ [] → All (λ a. test a ≡ false) xs
  unfolding filter
  filter-empty test [] e = tt
  filter-empty test (x ∷ xs) e = elim (Bool-cases (test x)) [
    | inl passed ↦ absurd (cc (rw (passed, filter) at e))
    | inr failed ↦ (failed, filter-empty test xs (rw (failed, filter) at e))
  ]

  pub filter-All : (test : A → Bool) (xs : List A) → All (λ a. test a ≡ true) (filter test xs)
  unfolding filter
  filter-All test [] = tt
  filter-All test (x ∷ xs) = elim (Bool-cases (test x)) [
    | inl passed ↦ rw passed (passed, filter-All test xs)
    | inr failed ↦ rw failed (filter-All test xs)
  ]

pub In-All {ℓ κ} : {A : Type ℓ} (P : A → Type κ) (xs : List A) (a : A) → All P xs → In a xs → P a
In-All P [] a h (i, e) = absurd cc
In-All P (x ∷ xs) a (h, hs) (zero, e) = subst P (some-injective _ _ e) h
In-All P (x ∷ xs) a (h, hs) (suc i, e) = In-All P xs a hs (i, e)

insert-All :
    (P : Server → Type 0) (s : Server) (ss : List Server) → P s → All P ss → All P (insert s ss)
unfolding insert
insert-All P s [] h hs = (h, hs)
insert-All P s (t ∷ ts) h (h', hs) = elim (Bool-cases (str_le s.name t.name)) [
  | inl before ↦ rw before (h, (h', hs))
  | inr behind ↦ rw behind (h', insert-All P s ts h hs)
]

pub sort_by_name-All : (P : Server → Type 0) (ss : List Server) → All P ss → All P (sort_by_name ss)
unfolding sort_by_name insert
sort_by_name-All P [] h = tt
sort_by_name-All P (s ∷ ss) (h, hs) = insert-All P s (sort_by_name ss) h (sort_by_name-All P ss hs)

pub first_named-In :
    (name : String) (ss : List Server) {s : Server} → first_named name ss ≡ some s → In s ss
unfolding first_named
first_named-In name [] e = absurd cc
first_named-In name (t ∷ ts) {s} e = elim (Bool-cases (str_eq t.name name)) [
  | inl same ↦ (0, rw (same, first_named) at e)
  | inr other ↦ In-tail s t ts (first_named-In name ts (rw (other, first_named) at e))
]

least_skip :
    (health_of : String → Option Health) (now : ℕ) (best s : Server) (ss : List Server)
    → In (least_from health_of now best ss) (best ∷ ss)
    → In (least_from health_of now best ss) (best ∷ s ∷ ss)
least_skip health_of now best s ss (zero, e) = (0, e)
least_skip health_of now best s ss (suc i, e) = (suc (suc i), e)

pub least_from-In :
    (health_of : String → Option Health) (now : ℕ) (best : Server) (ss : List Server)
    → In (least_from health_of now best ss) (best ∷ ss)
unfolding least_from
least_from-In health_of now best [] = (0, refl)
least_from-In health_of now best (s ∷ ss) =
    let fewer =
      ltb (recent_failures (health_of s.name) now) (recent_failures (health_of best.name) now) in
    elim (Bool-cases fewer) [
      | inl less ↦ rw less (In-tail _ best (s ∷ ss) (least_from-In health_of now s ss))
      | inr more ↦
          rw more (least_skip health_of now best s ss (least_from-In health_of now best ss))
    ]
