-- ===== src/Exits/Tests.antt =====
-- Runs of a tunnel, of a pool and of the choice of a server, and the theorems at them.
use Prim.Native.String.{String}
use text.Mathlib.Text.{◌==◌ as str_eq}
use solstein.Base.{
  some, none, ◌≡◌, refl, List, [], ◌∷◌, true, arith, ℕ, false, Option, ◌+◌, ◌*◌, ◌^◌, ◌<◌, min,
  ◌++◌, if◌then◌else◌, All,
}
use solstein.Exits.Tunnel.{new_tunnel, use_tunnel, release, close}
use solstein.Exits.Tunnel.Device.{
  Shared, new_shared, after_use, after_release, after_close, Reached, opened, used, released, shut,
  IsSafe, Reached-IsSafe,
}
use solstein.Exits.Pool.{new_pool, try_get, no_room, got, lookup}
use solstein.Exits.Pool.Busy.{lookup-try_get}
use solstein.Exits.Pool.Counts.{IsCounted}
use solstein.Exits.Pool.Calls.{Call, get, calls, calls-IsCounted}
use solstein.Exits.Budget.{Module, exits_fit, want_all, all_fit, provider_of, want, find, lists}
use solstein.Exits.Budget.Fit.{HasRoom, exits_of, exits_fit-HasRoom}
use solstein.Exits.Geography.{country_in, country_of, in_area}
use solstein.Exits.Health.{Health, benched, bench_for, bench_base, bench_max, record_failure}
use solstein.Exits.Health.Bench.{fail_all, benched_until-fail_all}
use solstein.Exits.Select.{
  Server, Exit, ExitState, filter, insert, sort_by_name, names_of, is_among, allowed, first_named,
  matches, tier_at, tiers_from, tiers, chosen, no_server, pick, kept, choose_from, choose,
}
use solstein.Exits.Select.Best.{choose-no_server}
use solstein.Exits.Select.Chosen.{IsChosen, choose-IsChosen}

-- A user starts, the tunnel is shut under it, and the user leaves: the device is to be closed.
abbrev shut_in_use : Shared
shut_in_use = after_release (after_close (after_use (new_shared 0 none) 1)) 2

shut_in_use-Reached : Reached 0 none shut_in_use
unfolding use_tunnel release close
shut_in_use-Reached = released _ 2 (omega arith) (shut _ (used _ 1 opened))

Reached-IsSafe_example : IsSafe shut_in_use
Reached-IsSafe_example = Reached-IsSafe 0 none shut_in_use shut_in_use-Reached

-- Two keys and two tunnels, then one more server than there are tunnels.
abbrev three_servers : List Call
three_servers = get "dk" true 1 ∷ get "no" true 2 ∷ get "se" true 3 ∷ []

abbrev two_keys : List String
two_keys = "first" ∷ "second" ∷ []

own_keys : (calls (new_pool 2 two_keys) three_servers).key_use ≡ 1 ∷ 1 ∷ []
unfolding calls
own_keys = refl

busy : (try_get (calls (new_pool 2 two_keys) three_servers) "se" true 4).1 ≡ no_room
unfolding calls
busy = refl

calls-IsCounted_example : IsCounted (calls (new_pool 2 two_keys) three_servers)
calls-IsCounted_example = calls-IsCounted 2 two_keys three_servers

abbrev server_in : String → String → Server
server_in name country = record {
  name = name;
  server_name = "";
  hostname = "";
  country = country;
  city = "";
}

abbrev servers : List Server
servers = server_in "se-1" "SE" ∷ server_in "no-1" "NO" ∷ server_in "dk-1" "DK" ∷ []

-- Norway first, then anywhere in Northern Europe but in Denmark.
abbrev north : Exit
north = record {
  provider = "vpn";
  locations =
      record { kind = "country"; country = "NO"; city = ""; name = "" }
      ∷ record { kind = "area"; country = ""; city = ""; name = "northern-europe" }
      ∷ [];
  strict = false;
  exclude = "DK" ∷ [];
  selection = "sticky";
}

abbrev new_health : Health
new_health = record { consecutive = 0; benched_until = 0; failures = []; last_error = "" }

-- The Norwegian server has failed.
abbrev norway_failed : String → Option Health
norway_failed name =
    if str_eq name "no-1" then some (record_failure new_health 5 "timeout").0 else none

abbrev unchosen : ExitState
unchosen = record { current = ""; chosen_at = 0 }

abbrev first_of : ℕ → ℕ
first_of n = 0

sweden_chosen :
    choose str_eq first_of north servers unchosen norway_failed 6
    ≡ chosen (server_in "se-1" "SE") (record { current = "se-1"; chosen_at = 6 })
unfolding choose choose_from tiers tiers_from tier_at matches in_area country_of country_in allowed
    sort_by_name insert filter is_among kept pick benched record_failure bench_for names_of
    first_named
sweden_chosen = refl

choose-IsChosen_example :
    IsChosen str_eq first_of north servers norway_failed 6 (server_in "se-1" "SE")
choose-IsChosen_example =
    choose-IsChosen str_eq first_of north servers unchosen norway_failed 6 sweden_chosen

abbrev strict_north : Exit
strict_north = record north { strict = true }

nothing_chosen : choose str_eq first_of strict_north servers unchosen norway_failed 6 ≡ no_server
unfolding choose choose_from tiers tiers_from tier_at matches in_area country_of country_in allowed
    sort_by_name insert filter is_among kept pick benched record_failure bench_for names_of
    first_named
nothing_chosen = refl

choose-no_server_example :
    All
      (All (λ t. benched (norway_failed t.name) 6 ≡ true))
      (tiers str_eq first_of strict_north servers)
choose-no_server_example =
    choose-no_server str_eq first_of strict_north servers unchosen norway_failed 6 nothing_chosen

benched_until-fail_all_example :
    ((fail_all new_health
        (((1, "timeout") ∷ (2, "reset") ∷ []) ++ (3, "timeout") ∷ [])).benched_until
      ≡ 3 + min (bench_base * 2 ^ 2) bench_max)
    × (bench_base * 2 ^ min 2 10 < 2 ^ 63)
benched_until-fail_all_example =
    benched_until-fail_all new_health ((1, "timeout") ∷ (2, "reset") ∷ []) 3 "timeout" refl

-- The tunnel to Norway is in use, the one to Denmark no more, and a third server is asked for.
abbrev one_left : List Call
one_left = get "dk" true 1 ∷ get "no" true 2 ∷ Call.released "dk" 3 ∷ []

in_use :
    lookup "no" (calls (new_pool 2 two_keys) one_left).tunnels
    ≡ some (record (new_tunnel 2 (some 1)) { active = 1 })
unfolding calls
in_use = refl

lookup-try_get_example :
    lookup "no" (try_get (calls (new_pool 2 two_keys) one_left) "se" true 4).0.tunnels
    ≡ some (record (new_tunnel 2 (some 1)) { active = 1 })
lookup-try_get_example =
    lookup-try_get (calls (new_pool 2 two_keys) one_left) "se" "no" _ true 4
      (calls-IsCounted 2 two_keys one_left) in_use (omega arith) refl

makes_room : (try_get (calls (new_pool 2 two_keys) one_left) "se" true 4).1 ≡ got
unfolding calls
makes_room = refl

-- Two exits of a provider with two tunnels, and one of another without a limit.
abbrev two_tunnels : Module
two_tunnels = record {
  exits = ("no", "proton") ∷ ("dk", "proton") ∷ ("se", "proton") ∷ ("home", "own") ∷ [];
  limits = ("proton", 2) ∷ ("own", 0) ∷ [];
}

three_do_not_fit : exits_fit two_tunnels ("no" ∷ "dk" ∷ "se" ∷ []) ≡ false
unfolding exits_fit want_all all_fit provider_of want find lists
three_do_not_fit = refl

exits_fit-HasRoom_example :
    HasRoom two_tunnels
      (λ provider. exits_of two_tunnels provider ("no" ∷ "home" ∷ "no" ∷ "dk" ∷ []) [])
unfolding exits_fit want_all all_fit provider_of want find lists
exits_fit-HasRoom_example = exits_fit-HasRoom two_tunnels ("no" ∷ "home" ∷ "no" ∷ "dk" ∷ []) refl
