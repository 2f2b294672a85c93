-- ===== src/Exits/Pool/Busy.antt =====
-- Tunnels in use while another is got (modules/exits/pool.go, tryGet).
use Prim.Native.String.{String}
use text.Mathlib.Text.{◌==◌ as str_eq}
use text.Mathlib.TextEquality.{eq_iff}
use solstein.Base.{
  ℕ, ◌<◌, ◌≡◌, refl, sym, ap, ◌∙◌, inl, inr, Bool, true, false, ◌&&◌, none, some, some-injective,
  ◌==◌, ltb, leb, length, Bool-cases, Option-cases, arith,
}
use solstein.Exits.Tunnel.{Tunnel, use_tunnel}
use solstein.Exits.Pool.{Pool, lookup, remove, victim_from, make_room, open_with, open_new, try_get}
use solstein.Exits.Pool.Counts.{IsCounted, remove-IsCounted}
use solstein.Exits.Pool.Named.{lookup-put, lookup-remove, victim_from-IdleIn, lookup_unique}

-- The tunnel to close is not one in use.
victim-apart :
    (pool : Pool) (n : String) (t : Tunnel) (now : ℕ)
    → IsCounted pool
    → lookup n pool.tunnels ≡ some t
    → 0 < t.active
    → str_eq (victim_from now "" none pool.tunnels) "" ≡ false
    → str_eq (victim_from now "" none pool.tunnels) n ≡ false
victim-apart pool n t now is found busy set =
    let victim = victim_from now "" none pool.tunnels in
    elim (Bool-cases (str_eq victim n)) [
      | inr apart ↦ apart
      | inl same ↦ elim (victim_from-IdleIn now "" none pool.tunnels) [
        | inl unset ↦ absurd (cc (ap (λ v. str_eq v "") unset, (eq_iff "" "").1 refl, set))
        | inr (i, u, e, idle) ↦
            let named = e ∙ ap (λ (m : String). some (m, u)) ((eq_iff victim n).0 same) in
            let alike = lookup_unique pool.tunnels i n t u (is.once n) found named in
            absurd (omega (arith, ap (λ (v : Tunnel). v.active) alike))
      ]
    ]

-- Making room leaves every tunnel in use.
make_room-busy :
    (pool roomy : Pool) (n : String) (t : Tunnel) (now : ℕ)
    → IsCounted pool
    → lookup n pool.tunnels ≡ some t
    → 0 < t.active
    → make_room pool now ≡ some roomy
    → lookup n roomy.tunnels ≡ some t
unfolding make_room
make_room-busy pool roomy n t now is found busy e =
    let victim = victim_from now "" none pool.tunnels in
    elim (Bool-cases (ltb 0 pool.max && leb pool.max (length pool.tunnels))) [
      | inl full ↦ elim (Bool-cases (str_eq victim "")) [
        | inl unset ↦ absurd (cc (rw (full, unset, make_room) at e))
        | inr set ↦
            let left = some-injective _ _ (rw (full, set, make_room) at e) in
            ap (λ (p : Pool). lookup n p.tunnels) (sym left)
            ∙ (lookup-remove pool victim n now (victim-apart pool n t now is found busy set)
                ∙ found)
      ]
      | inr free ↦
          ap (λ (p : Pool). lookup n p.tunnels)
            (sym (some-injective _ _ (rw (free, make_room) at e)))
          ∙ found
    ]

open_with-lookup :
    (pool : Pool) (name n : String) (opens : Bool) (now : ℕ)
    → str_eq name n ≡ false
    → lookup n (open_with pool name opens now).0.tunnels ≡ lookup n pool.tunnels
unfolding open_with
open_with-lookup pool name n false now apart = refl
open_with-lookup pool name n true now apart = elim (Bool-cases (length pool.keys == 0)) [
  | inl empty ↦ rw (empty, open_with) (lookup-put name n _ pool.tunnels apart)
  | inr keyed ↦ rw (keyed, open_with) (lookup-put name n _ pool.tunnels apart)
]

open_new-busy :
    (pool : Pool) (name n : String) (t : Tunnel) (opens : Bool) (now : ℕ)
    → IsCounted pool
    → lookup n pool.tunnels ≡ some t
    → 0 < t.active
    → str_eq name n ≡ false
    → lookup n (open_new pool name opens now).0.tunnels ≡ some t
unfolding open_new
open_new-busy pool name n t opens now is found busy apart =
    elim (Option-cases (make_room pool now)) [
      | inl full ↦ rw (full, open_new) found
      | inr (roomy, e) ↦
          rw (e, open_new)
            (open_with-lookup roomy name n opens now apart
              ∙ make_room-busy pool roomy n t now is found busy e)
    ]

-- In a pool with right counts, an attempt to get a tunnel to one server leaves every tunnel to another
-- that has users as it is: none is closed to make room.
pub lookup-try_get :
    (pool : Pool) (name n : String) (t : Tunnel) (opens : Bool) (now : ℕ)
    → IsCounted pool
    → lookup n pool.tunnels ≡ some t
    → 0 < t.active
    → str_eq name n ≡ false
    → lookup n (try_get pool name opens now).0.tunnels ≡ some t
unfolding try_get use_tunnel
lookup-try_get pool name n t opens now is found busy apart =
    elim (Option-cases (lookup name pool.tunnels)) [
      | inl absent ↦
          rw (absent, try_get) (open_new-busy pool name n t opens now is found busy apart)
      | inr (u, there) ↦ elim (Bool-cases u.closed) [
        | inl closed ↦
            rw (there, closed, try_get)
              (open_new-busy (remove pool name now) name n t opens now
                (remove-IsCounted pool name now is) (lookup-remove pool name n now apart ∙ found)
                busy apart)
        | inr open' ↦ rw (there, open', try_get) (lookup-put name n _ pool.tunnels apart ∙ found)
      ]
    ]
