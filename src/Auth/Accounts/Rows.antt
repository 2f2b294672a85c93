-- ===== src/Auth/Accounts/Rows.antt =====
-- The rows that a statement on the database selects (database/user.go,
-- database/token.go).
use solstein.Base.{
  ◌≡◌, inl, inr, Bool, true, subst, Option, none, some, some-injective, List, [], ◌∷◌, All,
  Bool-cases,
}
use solstein.Auth.Exec.{Failure}
use solstein.Auth.Exec.Triple.{Ends}
use solstein.Auth.Accounts.{Accounts, first_row, rows_left, if_found, if_absent}

module _ {A : Type 0} (P : A → Type 0) where
  pub first_row-All :
      (selects : A → Bool) (xs : List A) (x : A)
      → All P xs
      → first_row selects xs ≡ some x
      → P x × (selects x ≡ true)
  first_row-All selects [] x all h = absurd (cc h)
  first_row-All selects (y ∷ xs) x (p, all) h = elim (Bool-cases (selects y)) [
    | inl chosen ↦
        subst (λ z. P z × (selects z ≡ true)) (some-injective y x (rw chosen at h)) (p, chosen)
    | inr other ↦ first_row-All selects xs x all (rw other at h)
  ]

  pub rows_left-All : (deletes : A → Bool) (xs : List A) → All P xs → All P (rows_left deletes xs)
  rows_left-All deletes [] all = tt
  rows_left-All deletes (x ∷ xs) (p, all) = elim (Bool-cases (deletes x)) [
    | inl gone ↦ rw gone (rows_left-All deletes xs all)
    | inr kept ↦ rw kept (p, rows_left-All deletes xs all)
  ]

module _ {A : Type 0} (G G' : Accounts → Type 0) where
  pub if_found-Ends :
      (row : Option A) (e : Failure) (changed s : Accounts)
      → G s
      → G' changed
      → Ends (λ (_ : Unit) s. G' s × Unit) G (if_found row e changed s)
  if_found-Ends none e changed s is next = is
  if_found-Ends (some row) e changed s is next = (next, tt)

  pub if_absent-Ends :
      (row : Option A) (e : Failure) (changed s : Accounts)
      → G s
      → G' changed
      → Ends (λ (_ : Unit) s. G' s × Unit) G (if_absent row e changed s)
  if_absent-Ends none e changed s is next = (next, tt)
  if_absent-Ends (some row) e changed s is next = is
