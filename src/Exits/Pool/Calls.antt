-- ===== src/Exits/Pool/Calls.antt =====
-- A pool after any calls, in any order (modules/exits/pool.go).
use Prim.Native.String.{String}
use solstein.Base.{
  ℕ, zero, suc, ◌≡◌, refl, inl, inr, Bool, none, some, List, [], ◌∷◌, leb, length, get_or, All,
  Bool-cases, Option-cases, arith, replicate, length-replicate,
}
use solstein.Exits.Tunnel.{idle_for, Tunnel, release, close}
use solstein.Exits.Pool.{
  Pool, new_pool, lookup, put, remove, try_get, reap_from, reap, close_from, close_all,
}
use solstein.Exits.Pool.Entries.{Entries, uses_of, times_named, IsKeyed}
use solstein.Exits.Pool.Counts.{IsCounted, remove-IsCounted}
use solstein.Exits.Pool.Steps.{put_same-IsCounted, try_get-IsCounted}

-- A call of the pool, with the time, what a user of one of its tunnels does, or another order of the map.
pub data Call : Type 0 where
  get : String → Bool → ℕ → Call
  forget : String → ℕ → Call
  reaped : ℕ → Call
  all_closed : ℕ → Call
  released : String → ℕ → Call
  shut : String → Call
  swapped : ℕ → Call

abbrev pub change : (Tunnel → Tunnel) → Pool → String → Pool
change f pool name = elim (lookup name pool.tunnels) [
  | none ↦ pool
  | some t ↦ record pool { tunnels = put name (f t) pool.tunnels }
]

unfoldable pub swap_at : ℕ → Entries → Entries
swap_at i [] = []
swap_at i (a ∷ []) = a ∷ []
swap_at zero (a ∷ b ∷ ts) = b ∷ a ∷ ts
swap_at (suc i) (a ∷ b ∷ ts) = a ∷ swap_at i (b ∷ ts)

unfoldable pub call : Pool → Call → Pool
unfolding try_get remove reap close_all lookup put release close swap_at
call pool (get name opens now) = (try_get pool name opens now).0
call pool (forget name now) = remove pool name now
call pool (reaped now) = reap pool now
call pool (all_closed now) = close_all pool now
call pool (released name now) = change (λ t. (release t now).0) pool name
call pool (shut name) = change (λ t. (close t).0) pool name
call pool (swapped i) = record pool { tunnels = swap_at i pool.tunnels }

unfoldable pub calls : Pool → List Call → Pool
unfolding call
calls pool [] = pool
calls pool (c ∷ cs) = calls (call pool c) cs

reap_from-IsCounted :
    (ts : Entries) (now : ℕ) (pool : Pool) → IsCounted pool → IsCounted (reap_from ts now pool)
unfolding reap_from
reap_from-IsCounted [] now pool is = is
reap_from-IsCounted ((n, t) ∷ ts) now pool is = elim (Bool-cases (leb pool.idle (idle_for t now))) [
  | inl idle ↦
      rw idle (reap_from-IsCounted ts now (remove pool n now) (remove-IsCounted pool n now is))
  | inr used ↦ rw used (reap_from-IsCounted ts now pool is)
]

close_from-IsCounted :
    (ts : Entries) (now : ℕ) (pool : Pool) → IsCounted pool → IsCounted (close_from ts now pool)
unfolding close_from
close_from-IsCounted [] now pool is = is
close_from-IsCounted ((n, t) ∷ ts) now pool is =
    close_from-IsCounted ts now (remove pool n now) (remove-IsCounted pool n now is)

change-IsCounted :
    (f : Tunnel → Tunnel) (pool : Pool) (name : String)
    → ((t : Tunnel) → (f t).key ≡ t.key)
    → IsCounted pool
    → IsCounted (change f pool name)
change-IsCounted f pool name same is = elim (Option-cases (lookup name pool.tunnels)) [
  | inl absent ↦ rw (absent, change) is
  | inr (t, found) ↦ rw (found, change) (put_same-IsCounted pool name (f t) is found (same t))
]

swap_at-counts :
    (i : ℕ) (ts : Entries) (key : ℕ) (name : String)
    → (length (swap_at i ts) ≡ length ts)
      × (uses_of key (swap_at i ts) ≡ uses_of key ts)
      × (times_named name (swap_at i ts) ≡ times_named name ts)
unfolding swap_at uses_of times_named
swap_at-counts i [] key name = (refl, refl, refl)
swap_at-counts i (a ∷ []) key name = (refl, refl, refl)
swap_at-counts zero (a ∷ b ∷ ts) key name = (omega arith, omega arith, omega arith)
swap_at-counts (suc i) (a ∷ b ∷ ts) key name =
    let (p, q, r) = swap_at-counts i (b ∷ ts) key name in (omega arith, omega arith, omega arith)

swap_at-IsKeyed :
    (i keys : ℕ) (ts : Entries) → All (IsKeyed keys) ts → All (IsKeyed keys) (swap_at i ts)
unfolding swap_at
swap_at-IsKeyed i keys [] k = tt
swap_at-IsKeyed i keys (a ∷ []) k = k
swap_at-IsKeyed zero keys (a ∷ b ∷ ts) (k, (k', ks)) = (k', (k, ks))
swap_at-IsKeyed (suc i) keys (a ∷ b ∷ ts) (k, ks) = (k, swap_at-IsKeyed i keys (b ∷ ts) ks)

call-IsCounted : (pool : Pool) (c : Call) → IsCounted pool → IsCounted (call pool c)
unfolding call reap close_all release close
call-IsCounted pool (get name opens now) is = try_get-IsCounted pool name opens now is
call-IsCounted pool (forget name now) is = remove-IsCounted pool name now is
call-IsCounted pool (reaped now) is = reap_from-IsCounted pool.tunnels now pool is
call-IsCounted pool (all_closed now) is = close_from-IsCounted pool.tunnels now pool is
call-IsCounted pool (released name now) is = change-IsCounted _ pool name (λ t. refl) is
call-IsCounted pool (shut name) is = change-IsCounted _ pool name (λ t. ground arith) is
call-IsCounted pool (swapped i) is =
    let counts = λ (k : ℕ) (n : String). swap_at-counts i pool.tunnels k n in
    record {
      use_count = is.use_count;
      counted = λ k lt. omega (arith, is.counted k lt, (counts k "").1);
      keyed = swap_at-IsKeyed i (length pool.keys) pool.tunnels is.keyed;
      once = λ n. omega (arith, is.once n, (counts 0 n).2);
      room = λ pos. omega (arith, is.room pos, (counts 0 "").0);
      own = λ pos le k lt. omega (arith, is.own pos le k lt, (counts k "").1);
    }

calls_from-IsCounted : (pool : Pool) (cs : List Call) → IsCounted pool → IsCounted (calls pool cs)
unfolding calls
calls_from-IsCounted pool [] is = is
calls_from-IsCounted pool (c ∷ cs) is =
    calls_from-IsCounted (call pool c) cs (call-IsCounted pool c is)

get_or-replicate : (n i : ℕ) → get_or (replicate {A = ℕ} n 0) i 0 ≡ 0
get_or-replicate zero i = refl
get_or-replicate (suc n) zero = refl
get_or-replicate (suc n) (suc i) = get_or-replicate n i

-- After any calls of a new pool in any order, each key's count is how many open tunnels use it, no
-- server has two tunnels, at most the limit are open, and where the limit is at most the number of
-- keys, no two open tunnels share a key.
pub calls-IsCounted :
    (max : ℕ) (keys : List String) (cs : List Call) → IsCounted (calls (new_pool max keys) cs)
unfolding uses_of times_named
calls-IsCounted max keys cs = calls_from-IsCounted (new_pool max keys) cs (record {
  use_count = length-replicate (length keys) 0;
  counted = λ k lt. get_or-replicate (length keys) k;
  keyed = tt;
  once = λ n. omega arith;
  room = λ pos. omega arith;
  own = λ pos le k lt. omega arith;
})
