-- ===== src/Exits/Pool/Keys.antt =====
-- The key that a new tunnel gets, and how many tunnels use it (modules/exits/pool.go, pickKey).
use Prim.Native.String.{String}
use solstein.Base.{
  ℕ, zero, suc, ◌+◌, ◌-◌, ◌≤◌, ◌<◌, ◌≡◌, refl, subst, ◌⊎◌, inl, inr, Bool, true, false, not, Option,
  none, some, List, [], ◌∷◌, ◌==◌, ltb, if◌then◌else◌, length, get_or, set, Bool-cases, arith,
}
use solstein.Exits.Tunnel.{Tunnel}
use solstein.Exits.Pool.{Pool, is_better, pick_from, pick_key}
use solstein.Exits.Pool.Entries.{Entries, is_key, uses_of}

uses_lem :
    (uses best : ℕ) (rest : Bool)
    → ((if not (uses == best) then ltb uses best else rest) ≡ true → uses ≤ best)
      × ((if not (uses == best) then ltb uses best else rest) ≡ false → best ≤ uses)
uses_lem uses best rest = (λ e. ground (arith, e), λ e. ground (arith, e))

is_better-uses :
    (pool : Pool) (name : String) (now i best : ℕ)
    → is_better pool name now i best ≡ true
    → get_or pool.key_use i 0 ≤ get_or pool.key_use best 0
unfolding is_better
is_better-uses pool name now i best e =
    (uses_lem (get_or pool.key_use i 0) (get_or pool.key_use best 0) _).0 e

isnt_better-uses :
    (pool : Pool) (name : String) (now i best : ℕ)
    → is_better pool name now i best ≡ false
    → get_or pool.key_use best 0 ≤ get_or pool.key_use i 0
unfolding is_better
isnt_better-uses pool name now i best e =
    (uses_lem (get_or pool.key_use i 0) (get_or pool.key_use best 0) _).1 e

is_better-least :
    (pool : Pool) (name : String) (now i best : ℕ)
    → let r = if is_better pool name now i best then i else best in
      (get_or pool.key_use r 0 ≤ get_or pool.key_use best 0)
      × (get_or pool.key_use r 0 ≤ get_or pool.key_use i 0)
      × ((r ≡ i) ⊎ (r ≡ best))
unfolding is_better
is_better-least pool name now i best = elim (Bool-cases (is_better pool name now i best)) [
  | inl better ↦ rw better (is_better-uses pool name now i best better, omega arith, inl refl)
  | inr worse ↦ rw worse (omega arith, isnt_better-uses pool name now i best worse, inr refl)
]

pick_from-least :
    (pool : Pool) (name : String) (now n i best : ℕ)
    → let r = pick_from pool name now n i best in
      (get_or pool.key_use r 0 ≤ get_or pool.key_use best 0)
      × ((j : ℕ) → i ≤ j → j < i + n → get_or pool.key_use r 0 ≤ get_or pool.key_use j 0)
      × ((r ≡ best) ⊎ (r < i + n))
unfolding pick_from
pick_from-least pool name now zero i best = (omega arith, λ j a b. absurd (omega arith), inl refl)
pick_from-least pool name now (suc n) i best =
    let next = if is_better pool name now i best then i else best in
    let (a, b, c) = is_better-least pool name now i best in
    let (d, e, f) = pick_from-least pool name now n (i + 1) next in
    (
      omega arith,
      λ j lo hi. elim (Bool-cases (j == i)) [
        | inl same ↦
            let is : i ≡ j = ground arith in
            subst
              (λ m.
                get_or pool.key_use (pick_from pool name now n (i + 1) next) 0
                ≤ get_or pool.key_use m 0)
              is (omega arith)
        | inr apart ↦ e j (ground arith) (omega arith)
      ],
      ground arith,
    )

-- With keys, the key picked is one of them, and no key has fewer tunnels.
pub pick_key-least :
    (pool : Pool) (name : String) (now : ℕ)
    → 0 < length pool.keys
    → let r = pick_key pool name now in
      (r < length pool.keys)
      × ((j : ℕ) → j < length pool.keys → get_or pool.key_use r 0 ≤ get_or pool.key_use j 0)
unfolding pick_key
pick_key-least pool name now pos =
    let (a, b, c) = pick_from-least pool name now (length pool.keys - 1) 1 0 in
    (
      ground arith,
      λ j lt. elim (Bool-cases (j == 0)) [
        | inl first ↦
            let is : 0 ≡ j = ground arith in
            subst
              (λ m.
                get_or pool.key_use (pick_from pool name now (length pool.keys - 1) 1 0) 0
                ≤ get_or pool.key_use m 0)
              is a
        | inr later ↦ b j (ground arith) (omega arith)
      ],
    )

-- The uses of the first `n` keys.
total : ℕ → Entries → ℕ
total zero ts = 0
total (suc n) ts = uses_of n ts + total n ts

one_key : (n : ℕ) (k : Option ℕ) → ℕ
one_key zero k = 0
one_key (suc n) k = is_key n k + one_key n k

one_key-below : (n k : ℕ) → (one_key n (some k) ≤ 1) × (n ≤ k → one_key n (some k) ≡ 0)
unfolding one_key
one_key-below zero k = (omega arith, λ le. refl)
one_key-below (suc n) k =
    let (a, b) = one_key-below n k in (ground (arith, a, b), λ le. ground (arith, b))

one_key-le : (n : ℕ) (k : Option ℕ) → one_key n k ≤ 1
unfolding one_key
one_key-le zero none = omega arith
one_key-le (suc n) none = omega (arith, one_key-le n none)
one_key-le zero (some k) = omega arith
one_key-le (suc n) (some k) = (one_key-below (suc n) k).0

total-one :
    (n : ℕ) (name : String) (t : Tunnel) (ts : Entries)
    → total n ((name, t) ∷ ts) ≡ one_key n t.key + total n ts
unfolding total one_key uses_of
total-one zero name t ts = refl
total-one (suc n) name t ts = omega (arith, total-one n name t ts)

total-le : (n : ℕ) (ts : Entries) → total n ts ≤ length ts
unfolding total uses_of
total-le zero [] = omega arith
total-le (suc n) [] = omega (arith, total-le n [])
total-le zero ((name, t) ∷ ts) = omega arith
total-le (suc n) ((name, t) ∷ ts) =
    omega (arith, total-one (suc n) name t ts, one_key-le (suc n) t.key, total-le (suc n) ts)

total-ge : (n : ℕ) (ts : Entries) → ((k : ℕ) → k < n → 1 ≤ uses_of k ts) → n ≤ total n ts
unfolding total
total-ge zero ts h = omega arith
total-ge (suc n) ts h = omega (arith, h n (omega arith), total-ge n ts (λ k lt. h k (omega arith)))

-- With a tunnel on every key, there are at least as many tunnels as keys.
pub keys_le : (n : ℕ) (ts : Entries) → ((k : ℕ) → k < n → 1 ≤ uses_of k ts) → n ≤ length ts
keys_le n ts h = omega (arith, total-le n ts, total-ge n ts h)

pub get_or-set :
    (xs : List ℕ) (i v j : ℕ)
    → i < length xs
    → get_or (set xs i v) j 0 ≡ (if i == j then v else get_or xs j 0)
get_or-set [] i v j lt = absurd (omega arith)
get_or-set (x ∷ xs) zero v zero lt = refl
get_or-set (x ∷ xs) zero v (suc j) lt = ground arith
get_or-set (x ∷ xs) (suc i) v zero lt = ground arith
get_or-set (x ∷ xs) (suc i) v (suc j) lt = ground (arith, get_or-set xs i v j (omega arith))

pub length-set {ℓ} : {A : Type ℓ} (xs : List A) (i : ℕ) (v : A) → length (set xs i v) ≡ length xs
length-set [] i v = refl
length-set (x ∷ xs) zero v = refl
length-set (x ∷ xs) (suc i) v = omega (arith, length-set xs i v)
