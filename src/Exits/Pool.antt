-- ===== src/Exits/Pool.antt =====
-- A provider's pool of tunnels and their keys (modules/exits/pool.go). The list of tunnels stands for
-- the map by server name, in the order in which it is ranged over. Opening a tunnel is an argument:
-- whether it succeeds. What the pool logs, and the waiting of get between two attempts, are left out.
pub mod Entries
pub mod Keys
pub mod Counts
pub mod Room
pub mod Steps
pub mod Calls
pub mod Named
pub mod Busy
use Prim.Native.String.{String}
use text.Mathlib.Text.{◌==◌ as str_eq}
use solstein.Base.{
  ℕ, zero, suc, ◌+◌, ◌-◌, ◌*◌, ◌^◌, Bool, true, false, not, ◌&&◌, ◌||◌, Option, none, some, List,
  [], ◌∷◌, ◌++◌, ◌==◌, ltb, leb, if◌then◌else◌, length, get_or, set, replicate,
}
use solstein.Exits.Tunnel.{Tunnel, new_tunnel, use_tunnel, idle_for}

-- Five minutes.
abbrev pub idle_timeout : ℕ
idle_timeout = 5 * 60 * 1000000000

-- Three minutes.
abbrev pub key_move_settle : ℕ
key_move_settle = 3 * 60 * 1000000000

-- The server a key was last used on, and when; "" for never.
pub record KeyPlace : Type 0 where
  pub server : String
  pub at : ℕ

pub record Pool : Type 0 where
  pub max : ℕ
  pub keys : List String
  pub key_use : List ℕ
  pub key_last : List KeyPlace
  pub idle : ℕ
  pub tunnels : List (String × Tunnel)

abbrev pub nowhere : KeyPlace
nowhere = record { server = ""; at = 0 }

abbrev pub new_pool : ℕ → List String → Pool
new_pool max keys = record {
  max = max;
  keys = keys;
  key_use = replicate (length keys) 0;
  key_last = replicate (length keys) nowhere;
  idle = idle_timeout;
  tunnels = [];
}

unfoldable pub lookup : String → List (String × Tunnel) → Option Tunnel
lookup name [] = none
lookup name ((n, t) ∷ ts) = let rest = lookup name ts in if str_eq n name then some t else rest

unfoldable pub delete : String → List (String × Tunnel) → List (String × Tunnel)
delete name [] = []
delete name ((n, t) ∷ ts) = let rest = delete name ts in if str_eq n name then ts else (n, t) ∷ rest

unfoldable pub put : String → Tunnel → List (String × Tunnel) → List (String × Tunnel)
put name tunnel [] = (name, tunnel) ∷ []
put name tunnel ((n, t) ∷ ts) =
    let rest = put name tunnel ts in if str_eq n name then (n, tunnel) ∷ ts else (n, t) ∷ rest

-- The tunnel's key is free again.
unfoldable pub free_key : Pool → String → Tunnel → ℕ → Pool
free_key pool name tunnel now = elim tunnel.key [
  | none ↦ pool
  | some key ↦ record pool {
    key_use = set pool.key_use key (get_or pool.key_use key 0 - 1);
    key_last = set pool.key_last key (record { server = name; at = now });
  }
]

unfoldable pub remove : Pool → String → ℕ → Pool
unfolding free_key lookup delete
remove pool name now = elim (lookup name pool.tunnels) [
  | none ↦ pool
  | some tunnel ↦ free_key (record pool { tunnels = delete name pool.tunnels }) name tunnel now
]

-- How recently the key was used elsewhere: the lower the better.
abbrev pub class_of : Pool → String → ℕ → ℕ → ℕ
class_of pool name now key =
    let last = get_or pool.key_last key nowhere in
    if str_eq last.server name
    then 0
    else if str_eq last.server "" || leb key_move_settle (now - last.at)
    then 1
    else 2

abbrev pub since_of : Pool → ℕ → ℕ → ℕ
since_of pool now key =
    let last = get_or pool.key_last key nowhere in
    if str_eq last.server "" then 2 ^ 63 - 1 else now - last.at

-- Whether key `i` is to be taken rather than the best so far.
unfoldable pub is_better : Pool → String → ℕ → ℕ → ℕ → Bool
is_better pool name now i best =
    let uses = get_or pool.key_use i 0 in
    let best_uses = get_or pool.key_use best 0 in
    let class = class_of pool name now i in
    let best_class = class_of pool name now best in
    if not (uses == best_uses)
    then ltb uses best_uses
    else if not (class == best_class)
    then ltb class best_class
    else ltb (since_of pool now best) (since_of pool now i)

-- The `n` keys from `i` on against the best so far.
unfoldable pub pick_from : Pool → String → ℕ → ℕ → ℕ → ℕ → ℕ
unfolding is_better
pick_from pool name now zero i best = best
pick_from pool name now (suc n) i best =
    pick_from pool name now n (i + 1) (if is_better pool name now i best then i else best)

unfoldable pub pick_key : Pool → String → ℕ → ℕ
unfolding pick_from
pick_key pool name now = pick_from pool name now (length pool.keys - 1) 1 0

-- The tunnel that is longest without users: its name, "" for none, and for how long.
unfoldable pub victim_from : ℕ → String → Option ℕ → List (String × Tunnel) → String
unfolding idle_for
victim_from now victim longest [] = victim
victim_from now victim longest ((n, t) ∷ ts) =
    let idle = idle_for t now in
    let skipped = victim_from now victim longest ts in
    let taken = victim_from now n (some idle) ts in
    if ltb 0 t.active
    then skipped
    else elim longest [ none ↦ taken | some most ↦ if ltb most idle then taken else skipped ]

-- The pool with room for one more tunnel, or none.
unfoldable pub make_room : Pool → ℕ → Option Pool
unfolding remove victim_from
make_room pool now =
    if ltb 0 pool.max && leb pool.max (length pool.tunnels)
    then (let victim = victim_from now "" none pool.tunnels in
        if str_eq victim "" then none else some (remove pool victim now))
    else some pool

pub data Outcome : Type 0 where
  got no_room open_failed : Outcome

-- A new tunnel is opened with a key of the pool, if it has any, and handed over in use.
unfoldable pub open_with : Pool → String → Bool → ℕ → Pool × Outcome
unfolding pick_key put use_tunnel
open_with pool name opens now =
    let key = pick_key pool name now in
    if not opens
    then (pool, open_failed)
    else if length pool.keys == 0
    then (
      record pool { tunnels = put name (use_tunnel (new_tunnel now none) now).0 pool.tunnels },
      got,
    )
    else (
      record pool {
        key_use = set pool.key_use key (get_or pool.key_use key 0 + 1);
        key_last = set pool.key_last key (record { server = name; at = now });
        tunnels = put name (use_tunnel (new_tunnel now (some key)) now).0 pool.tunnels;
      },
      got,
    )

unfoldable pub open_new : Pool → String → Bool → ℕ → Pool × Outcome
unfolding make_room open_with
open_new pool name opens now = elim (make_room pool now) [
  | none ↦ (pool, no_room)
  | some roomy ↦ open_with roomy name opens now
]

unfoldable pub try_get : Pool → String → Bool → ℕ → Pool × Outcome
unfolding lookup remove put use_tunnel open_new
try_get pool name opens now = elim (lookup name pool.tunnels) [
  | none ↦ open_new pool name opens now
  | some existing ↦
      if (use_tunnel existing now).1
      then (record pool { tunnels = put name (use_tunnel existing now).0 pool.tunnels }, got)
      else open_new (remove pool name now) name opens now
]

-- The names that the range yields are removed where the tunnel is idle for long enough.
unfoldable pub reap_from : List (String × Tunnel) → ℕ → Pool → Pool
unfolding remove idle_for
reap_from [] now pool = pool
reap_from ((n, t) ∷ ts) now pool =
    reap_from ts now (if leb pool.idle (idle_for t now) then remove pool n now else pool)

unfoldable pub reap : Pool → ℕ → Pool
unfolding reap_from
reap pool now = reap_from pool.tunnels now pool

unfoldable pub close_from : List (String × Tunnel) → ℕ → Pool → Pool
unfolding remove
close_from [] now pool = pool
close_from ((n, t) ∷ ts) now pool = close_from ts now (remove pool n now)

unfoldable pub close_all : Pool → ℕ → Pool
unfolding close_from
close_all pool now = close_from pool.tunnels now pool
