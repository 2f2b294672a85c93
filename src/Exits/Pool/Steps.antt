-- ===== src/Exits/Pool/Steps.antt =====
-- The counts of a pool through an attempt to get a tunnel (modules/exits/pool.go, tryGet).
use Prim.Native.String.{String}
use text.Mathlib.Text.{◌==◌ as str_eq}
use text.Mathlib.TextEquality.{eq_iff}
use solstein.Base.{
  ℕ, ◌+◌, ◌≤◌, ◌<◌, ◌≡◌, refl, sym, ap, ◌∙◌, subst, inl, inr, Bool, true, false, Option, none, some,
  ◌==◌, length, get_or, set, Bool-cases, Option-cases, arith,
}
use solstein.Exits.Tunnel.{Tunnel, use_tunnel}
use solstein.Exits.Pool.{
  Pool, KeyPlace, lookup, put, remove, pick_key, make_room, open_with, open_new, try_get,
}
use solstein.Exits.Pool.Entries.{
  Entries, is_key, has_key, uses_of, is_named, times_named, delete-counts, lookup-IsKeyed,
  lookup-absent, absent-times, put-counts, put_same-counts, put-IsKeyed,
}
use solstein.Exits.Pool.Keys.{pick_key-least, keys_le, length-set}
use solstein.Exits.Pool.Room.{HasRoom, make_room-HasRoom}
use solstein.Exits.Pool.Counts.{IsCounted, remove-IsCounted, remove-found, count_up}

-- A tunnel in the pool in another state, with the same key.
pub put_same-IsCounted :
    (pool : Pool) (name : String) (t : Tunnel) {old : Tunnel}
    → IsCounted pool
    → lookup name pool.tunnels ≡ some old
    → t.key ≡ old.key
    → IsCounted (record pool { tunnels = put name t pool.tunnels })
put_same-IsCounted pool name t {old} is found same =
    let keys = length pool.keys in
    let keyed = lookup-IsKeyed name keys pool.tunnels is.keyed found in
    let counts = λ (k : ℕ) (n : String). put_same-counts name t pool.tunnels k n found same in
    record {
      use_count = is.use_count;
      counted = λ k lt. omega (arith, is.counted k lt, (counts k name).1);
      keyed =
          put-IsKeyed name t keys pool.tunnels
            (subst (λ (o : Option ℕ). elim o [ none ↦ keys ≡ 0 | some k ↦ k < keys ]) (sym same)
              keyed)
            is.keyed;
      once = λ n. omega (arith, is.once n, (counts 0 n).2);
      room = λ pos. omega (arith, is.room pos, (counts 0 name).0);
      own = λ pos le k lt. omega (arith, is.own pos le k lt, (counts k name).1);
    }

eq_of : (a b : ℕ) → (a == b) ≡ true → a ≡ b
eq_of a b e = ground arith

-- A name that is not there is there once when it is put.
put_once :
    (name n : String) (ts : Entries)
    → times_named name ts ≡ 0
    → times_named n ts ≤ 1
    → times_named n ts + is_named name n ≤ 1
put_once name n ts absent once = elim (Bool-cases (str_eq name n)) [
  | inl same ↦
      let times = ap (λ (m : String). times_named m ts) ((eq_iff name n).0 same) in
      rw same (omega (arith, times))
  | inr apart ↦ rw apart (omega arith)
]

-- With fewer tunnels than keys, a key that no key has fewer tunnels than has none.
least_unused :
    (pool : Pool) (key : ℕ)
    → IsCounted pool
    → length pool.tunnels < length pool.keys
    → key < length pool.keys
    → ((j : ℕ) → j < length pool.keys → get_or pool.key_use key 0 ≤ get_or pool.key_use j 0)
    → uses_of key pool.tunnels ≡ 0
least_unused pool key is few small least = elim (Bool-cases (uses_of key pool.tunnels == 0)) [
  | inl unused ↦ ground arith
  | inr used ↦
      let all =
        keys_le (length pool.keys) pool.tunnels
          (λ k lt. ground (arith, used, is.counted key small, is.counted k lt, least k lt)) in
      absurd (omega arith)
]

-- A tunnel of the pool's key that no more tunnels use than any other.
with_key-IsCounted :
    (pool : Pool) (name : String) (t : Tunnel) (now key : ℕ) (place : KeyPlace)
    → HasRoom name pool
    → key < length pool.keys
    → ((j : ℕ) → j < length pool.keys → get_or pool.key_use key 0 ≤ get_or pool.key_use j 0)
    → t.key ≡ some key
    → IsCounted (record pool {
      key_use = set pool.key_use key (get_or pool.key_use key 0 + 1);
      key_last = set pool.key_last key place;
      tunnels = put name t pool.tunnels;
    })
with_key-IsCounted pool name t now key place has small least own =
    let is = has.counted in
    let keys = length pool.keys in
    let gone = lookup-absent name pool.tunnels has.absent in
    let counts = λ (k : ℕ) (n : String). put-counts name t pool.tunnels k n gone in
    let used : (k : ℕ) → has_key k t ≡ is_key k (some key) =
      λ k. ap (λ (o : Option ℕ). is_key k o) own in
    record {
      use_count = length-set pool.key_use key _ ∙ is.use_count;
      counted = λ k lt.
          count_up pool.key_use key k _ _ (omega (arith, is.use_count)) (is.counted k lt)
            (omega (arith, (counts k name).1, used k));
      keyed = put-IsKeyed name t keys pool.tunnels (rw own small) is.keyed;
      once =
          λ n. omega (arith, (counts 0 n).2, put_once name n pool.tunnels has.absent (is.once n));
      room = λ pos. omega (arith, has.smaller pos, (counts 0 name).0);
      own = λ pos le k lt.
          let unused = least_unused pool key is (omega (arith, has.smaller pos)) small least in
          let one : uses_of k pool.tunnels + is_key k (some key) ≤ 1 =
            elim (Bool-cases (key == k)) [
              | inl same ↦
                  let uses = ap (λ (j : ℕ). uses_of j pool.tunnels) (eq_of key k same) in
                  rw same (omega (arith, unused, uses))
              | inr apart ↦ rw apart (omega (arith, is.own pos le k lt))
            ] in
          omega (arith, one, (counts k name).1, used k);
    }

without_key-IsCounted :
    (pool : Pool) (name : String) (t : Tunnel)
    → HasRoom name pool
    → length pool.keys ≡ 0
    → t.key ≡ none
    → IsCounted (record pool { tunnels = put name t pool.tunnels })
without_key-IsCounted pool name t has empty own =
    let is = has.counted in
    let gone = lookup-absent name pool.tunnels has.absent in
    let counts = λ (n : String). put-counts name t pool.tunnels 0 n gone in
    record {
      use_count = is.use_count;
      counted = λ k lt. absurd (omega arith);
      keyed = put-IsKeyed name t (length pool.keys) pool.tunnels (rw own empty) is.keyed;
      once = λ n. omega (arith, (counts n).2, put_once name n pool.tunnels has.absent (is.once n));
      room = λ pos. omega (arith, has.smaller pos, (counts name).0);
      own = λ pos le k lt. absurd (omega arith);
    }

open_with-IsCounted :
    (pool : Pool) (name : String) (opens : Bool) (now : ℕ)
    → HasRoom name pool
    → IsCounted (open_with pool name opens now).0
unfolding open_with use_tunnel
open_with-IsCounted pool name false now has = has.counted
open_with-IsCounted pool name true now has = elim (Bool-cases (length pool.keys == 0)) [
  | inl empty ↦ rw (empty, open_with) (without_key-IsCounted pool name _ has (eq_of _ _ empty) refl)
  | inr keyed ↦
      let (small, least) = pick_key-least pool name now (ground arith) in
      rw (keyed, open_with)
        (with_key-IsCounted pool name _ now (pick_key pool name now) _ has small least refl)
]

open_new-IsCounted :
    (pool : Pool) (name : String) (opens : Bool) (now : ℕ)
    → IsCounted pool
    → times_named name pool.tunnels ≡ 0
    → IsCounted (open_new pool name opens now).0
unfolding open_new
open_new-IsCounted pool name opens now is absent = elim (Option-cases (make_room pool now)) [
  | inl full ↦ rw (full, open_new) is
  | inr (roomy, e) ↦
      rw (e, open_new)
        (open_with-IsCounted roomy name opens now
          (make_room-HasRoom pool roomy name now is absent e))
]

pub try_get-IsCounted :
    (pool : Pool) (name : String) (opens : Bool) (now : ℕ)
    → IsCounted pool
    → IsCounted (try_get pool name opens now).0
unfolding try_get use_tunnel
try_get-IsCounted pool name opens now is = elim (Option-cases (lookup name pool.tunnels)) [
  | inl absent ↦
      rw (absent, try_get)
        (open_new-IsCounted pool name opens now is (absent-times name pool.tunnels absent))
  | inr (t, found) ↦ elim (Bool-cases t.closed) [
    | inl closed ↦
        let (a, b, c) = delete-counts name pool.tunnels 0 name found in
        let left =
          ap (λ (ts : Entries). times_named name ts) ((remove-found pool name now found).0) in
        let named : is_named name name ≡ 1 = rw ((eq_iff name name).1 refl) refl in
        rw (found, closed, try_get)
          (open_new-IsCounted (remove pool name now) name opens now
            (remove-IsCounted pool name now is) (omega (arith, c, left, named, is.once name)))
    | inr open' ↦ rw (found, open', try_get) (put_same-IsCounted pool name _ is found refl)
  ]
]
