-- ===== src/Exits/Pool/Counts.antt =====
-- The counts of a pool, and what removing a tunnel does to them (modules/exits/pool.go, remove).
use Prim.Native.String.{String}
use solstein.Base.{
  ℕ, ◌+◌, ◌-◌, ◌≤◌, ◌<◌, ◌≡◌, refl, ap, ◌∙◌, inl, inr, Option, none, some, List, ◌==◌, length,
  get_or, set, All, Bool-cases, Option-cases, arith,
}
use solstein.Exits.Tunnel.{Tunnel}
use solstein.Exits.Pool.{Pool, KeyPlace, lookup, delete, free_key, remove}
use solstein.Exits.Pool.Entries.{
  is_key, has_key, uses_of, times_named, IsKeyed, delete-counts, delete-IsKeyed, lookup-IsKeyed,
}
use solstein.Exits.Pool.Keys.{get_or-set, length-set}

-- A pool whose counts are right.
pub record IsCounted (pool : Pool) : Type 0 where
  pub use_count : length pool.key_use ≡ length pool.keys
  pub counted :
      (key : ℕ) → key < length pool.keys → get_or pool.key_use key 0 ≡ uses_of key pool.tunnels
  pub keyed : All (IsKeyed (length pool.keys)) pool.tunnels
  pub once : (name : String) → times_named name pool.tunnels ≤ 1
  pub room : 0 < pool.max → length pool.tunnels ≤ pool.max
  pub own :
      0 < pool.max
      → pool.max ≤ length pool.keys
      → (key : ℕ) → key < length pool.keys
      → uses_of key pool.tunnels ≤ 1

-- One key's use goes up or down with the tunnels that use it.
count_down :
    (uses : List ℕ) (k key v was : ℕ)
    → k < length uses
    → get_or uses key 0 ≡ was
    → v + is_key key (some k) ≡ was
    → get_or (set uses k (get_or uses k 0 - 1)) key 0 ≡ v
count_down uses k key v was lt e e' = elim (Bool-cases (k == key)) [
  | inl same ↦
      let is : k ≡ key = ground arith in
      let at = ap (λ (i : ℕ). get_or uses i 0) is in
      get_or-set uses k _ key lt ∙ ground (arith, same, e, e', at)
  | inr apart ↦ get_or-set uses k _ key lt ∙ ground (arith, apart, e, e')
]

pub count_up :
    (uses : List ℕ) (k key v was : ℕ)
    → k < length uses
    → get_or uses key 0 ≡ was
    → v ≡ was + is_key key (some k)
    → get_or (set uses k (get_or uses k 0 + 1)) key 0 ≡ v
count_up uses k key v was lt e e' = elim (Bool-cases (k == key)) [
  | inl same ↦
      let is : k ≡ key = ground arith in
      let at = ap (λ (i : ℕ). get_or uses i 0) is in
      get_or-set uses k _ key lt ∙ ground (arith, same, e, e', at)
  | inr apart ↦ get_or-set uses k _ key lt ∙ ground (arith, apart, e, e')
]

-- The pool without a tunnel, with other counts that are right.
deleted-IsCounted :
    (pool : Pool) (name : String) {t : Tunnel} (uses : List ℕ) (last : List KeyPlace)
    → IsCounted pool
    → lookup name pool.tunnels ≡ some t
    → length uses ≡ length pool.keys
    → ((k : ℕ) → k < length pool.keys → get_or uses k 0 + has_key k t ≡ uses_of k pool.tunnels)
    → IsCounted
        (record pool { tunnels = delete name pool.tunnels; key_use = uses; key_last = last })
deleted-IsCounted pool name {t} uses last is found same right =
    let counts = λ (k : ℕ) (n : String). delete-counts name pool.tunnels k n found in
    record {
      use_count = same;
      counted = λ k lt. omega (arith, right k lt, (counts k name).1);
      keyed = delete-IsKeyed name (length pool.keys) pool.tunnels is.keyed;
      once = λ n. omega (arith, is.once n, (counts 0 n).2);
      room = λ pos. omega (arith, is.room pos, (counts 0 name).0);
      own = λ pos le k lt. omega (arith, is.own pos le k lt, (counts k name).1);
    }

free_key-IsCounted :
    (pool : Pool) (name : String) (now : ℕ) (t : Tunnel)
    → IsCounted pool
    → lookup name pool.tunnels ≡ some t
    → (key : Option ℕ) → t.key ≡ key
    → IsCounted (free_key (record pool { tunnels = delete name pool.tunnels }) name t now)
unfolding free_key
free_key-IsCounted pool name now t is found none key =
    rw (key, free_key)
      (deleted-IsCounted pool name pool.key_use pool.key_last is found is.use_count (λ k lt.
        let unused : has_key k t ≡ 0 = ap (λ (o : Option ℕ). is_key k o) key in
        omega (arith, is.counted k lt, unused)))
free_key-IsCounted pool name now t is found (some j) key =
    let keyed = lookup-IsKeyed name (length pool.keys) pool.tunnels is.keyed found in
    let small : j < length pool.keys = rw key at keyed in
    rw (key, free_key)
      (deleted-IsCounted pool name _ _ is found (length-set pool.key_use j _ ∙ is.use_count)
        (λ k lt.
          let (a, b, c) = delete-counts name pool.tunnels k name found in
          let used : has_key k t ≡ is_key k (some j) = ap (λ (o : Option ℕ). is_key k o) key in
          let down =
            count_down pool.key_use j k (uses_of k (delete name pool.tunnels)) _
              (omega (arith, is.use_count)) (is.counted k lt) (omega (arith, b, used)) in
          omega (arith, down, b)))

pub remove-IsCounted :
    (pool : Pool) (name : String) (now : ℕ) → IsCounted pool → IsCounted (remove pool name now)
unfolding remove
remove-IsCounted pool name now is = elim (Option-cases (lookup name pool.tunnels)) [
  | inl absent ↦ rw (absent, remove) is
  | inr (t, found) ↦ rw (found, remove) (free_key-IsCounted pool name now t is found t.key refl)
]

-- What removing a tunnel that is there leaves of the rest.
pub remove-found :
    (pool : Pool) (name : String) (now : ℕ) {t : Tunnel}
    → lookup name pool.tunnels ≡ some t
    → ((remove pool name now).tunnels ≡ delete name pool.tunnels)
      × ((remove pool name now).max ≡ pool.max)
      × ((remove pool name now).keys ≡ pool.keys)
unfolding remove free_key
remove-found pool name now {t} found = elim (Option-cases t.key) [
  | inl own ↦ rw (found, own, remove, free_key) (refl, refl, refl)
  | inr (k, own) ↦ rw (found, own, remove, free_key) (refl, refl, refl)
]
