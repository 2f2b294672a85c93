-- ===== src/Exits/Pool/Entries.antt =====
-- The tunnels of a pool by name and by key (modules/exits/pool.go): what deleting and putting one does
-- to how many there are.
use Prim.Native.String.{String}
use text.Mathlib.Text.{◌==◌ as str_eq}
use text.Mathlib.TextEquality.{eq_iff}
use solstein.Base.{
  ℕ, ◌+◌, ◌<◌, ◌≡◌, refl, sym, ap, ◌∙◌, subst, inl, inr, Option, none, some, some-injective, List,
  [], ◌∷◌, ◌==◌, if◌then◌else◌, length, All, Bool-cases, arith,
}
use solstein.Exits.Tunnel.{Tunnel}
use solstein.Exits.Pool.{lookup, delete, put}

abbrev pub Entries : Type 0
Entries = List (String × Tunnel)

abbrev pub is_key : ℕ → Option ℕ → ℕ
is_key key none = 0
is_key key (some k) = if k == key then 1 else 0

-- 1 if the tunnel uses the key.
abbrev pub has_key : ℕ → Tunnel → ℕ
has_key key tunnel = is_key key tunnel.key

unfoldable pub uses_of : ℕ → Entries → ℕ
uses_of key [] = 0
uses_of key ((n, t) ∷ ts) = has_key key t + uses_of key ts

abbrev pub is_named : String → String → ℕ
is_named n name = if str_eq n name then 1 else 0

unfoldable pub times_named : String → Entries → ℕ
times_named name [] = 0
times_named name ((n, t) ∷ ts) = is_named n name + times_named name ts

-- With `keys` keys in the pool, the tunnel uses one of them; without keys, none.
abbrev pub IsKeyed : ℕ → String × Tunnel → Type 0
IsKeyed keys (n, t) = elim t.key [ none ↦ keys ≡ 0 | some k ↦ k < keys ]

-- What deleting a tunnel that is there changes.
pub delete-counts :
    (name : String) (ts : Entries) {t : Tunnel} (key : ℕ) (other : String)
    → lookup name ts ≡ some t
    → (length (delete name ts) + 1 ≡ length ts)
      × (uses_of key (delete name ts) + has_key key t ≡ uses_of key ts)
      × (times_named other (delete name ts) + is_named name other ≡ times_named other ts)
unfolding lookup delete uses_of times_named
delete-counts name [] key other e = absurd cc
delete-counts name ((n, u) ∷ ts) {t} key other e = elim (Bool-cases (str_eq n name)) [
  | inl same ↦
      let found = some-injective _ _ (rw (same, lookup) at e) in
      let named = ap (λ m. is_named m other) ((eq_iff n name).0 same) in
      let uses : has_key key u ≡ has_key key t = ap (λ (v : Tunnel). has_key key v) found in
      rw same (omega arith, omega arith, omega arith)
  | inr apart ↦
      let (a, b, c) = delete-counts name ts key other (rw (apart, lookup) at e) in
      rw apart (omega arith, omega arith, omega arith)
]

pub delete-IsKeyed :
    (name : String) (keys : ℕ) (ts : Entries)
    → All (IsKeyed keys) ts
    → All (IsKeyed keys) (delete name ts)
unfolding delete
delete-IsKeyed name keys [] k = tt
delete-IsKeyed name keys ((n, t) ∷ ts) (k, ks) = elim (Bool-cases (str_eq n name)) [
  | inl same ↦ rw same ks
  | inr apart ↦ rw apart (k, delete-IsKeyed name keys ts ks)
]

pub lookup-IsKeyed :
    (name : String) (keys : ℕ) (ts : Entries) {t : Tunnel}
    → All (IsKeyed keys) ts
    → lookup name ts ≡ some t
    → IsKeyed keys (name, t)
unfolding lookup
lookup-IsKeyed name keys [] k e = absurd cc
lookup-IsKeyed name keys ((n, t) ∷ ts) (k, ks) e = elim (Bool-cases (str_eq n name)) [
  | inl same ↦ subst (λ u. IsKeyed keys (name, u)) (some-injective _ _ (rw (same, lookup) at e)) k
  | inr apart ↦ lookup-IsKeyed name keys ts ks (rw (apart, lookup) at e)
]

-- A name that is not there is not found.
pub lookup-absent : (name : String) (ts : Entries) → times_named name ts ≡ 0 → lookup name ts ≡ none
unfolding lookup times_named
lookup-absent name [] e = refl
lookup-absent name ((n, t) ∷ ts) e = ground (arith, lookup-absent name ts)

-- What putting a tunnel under a new name changes.
pub put-counts :
    (name : String) (t : Tunnel) (ts : Entries) (key : ℕ) (other : String)
    → lookup name ts ≡ none
    → (length (put name t ts) ≡ length ts + 1)
      × (uses_of key (put name t ts) ≡ uses_of key ts + has_key key t)
      × (times_named other (put name t ts) ≡ times_named other ts + is_named name other)
unfolding lookup put uses_of times_named
put-counts name t [] key other e = (omega arith, omega arith, omega arith)
put-counts name t ((n, u) ∷ ts) key other e = elim (Bool-cases (str_eq n name)) [
  | inl same ↦ absurd (cc (rw (same, lookup) at e))
  | inr apart ↦
      let (a, b, c) = put-counts name t ts key other (rw (apart, lookup) at e) in
      rw apart (omega arith, omega arith, omega arith)
]

-- Putting a tunnel in the place of one with the same key changes nothing that is counted.
pub put_same-counts :
    (name : String) (t : Tunnel) (ts : Entries) {old : Tunnel} (key : ℕ) (other : String)
    → lookup name ts ≡ some old
    → t.key ≡ old.key
    → (length (put name t ts) ≡ length ts)
      × (uses_of key (put name t ts) ≡ uses_of key ts)
      × (times_named other (put name t ts) ≡ times_named other ts)
unfolding lookup put uses_of times_named
put_same-counts name t [] key other e same_key = absurd cc
put_same-counts name t ((n, u) ∷ ts) {old} key other e same_key =
    elim (Bool-cases (str_eq n name)) [
      | inl same ↦
          let found = some-injective _ _ (rw (same, lookup) at e) in
          let keys : t.key ≡ u.key = same_key ∙ sym (ap (λ (v : Tunnel). v.key) found) in
          let uses : has_key key t ≡ has_key key u = ap (λ (k : Option ℕ). is_key key k) keys in
          rw same (refl, omega arith, refl)
      | inr apart ↦
          let (a, b, c) = put_same-counts name t ts key other (rw (apart, lookup) at e) same_key in
          rw apart (omega arith, omega arith, omega arith)
    ]

pub put-IsKeyed :
    (name : String) (t : Tunnel) (keys : ℕ) (ts : Entries)
    → IsKeyed keys (name, t)
    → All (IsKeyed keys) ts
    → All (IsKeyed keys) (put name t ts)
unfolding put
put-IsKeyed name t keys [] k ks = (k, tt)
put-IsKeyed name t keys ((n, u) ∷ ts) k (k', ks) = elim (Bool-cases (str_eq n name)) [
  | inl same ↦ rw same (k, ks)
  | inr apart ↦ rw apart (k', put-IsKeyed name t keys ts k ks)
]

pub absent-times : (name : String) (ts : Entries) → lookup name ts ≡ none → times_named name ts ≡ 0
unfolding lookup times_named
absent-times name [] e = refl
absent-times name ((n, t) ∷ ts) e = elim (Bool-cases (str_eq n name)) [
  | inl same ↦ absurd (cc (rw (same, lookup) at e))
  | inr apart ↦ rw apart (omega (arith, absent-times name ts (rw (apart, lookup) at e)))
]
