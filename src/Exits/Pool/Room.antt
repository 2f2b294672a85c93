-- ===== src/Exits/Pool/Room.antt =====
-- Room for one more tunnel (modules/exits/pool.go: the choice of the tunnel to close in tryGet).
use Prim.Native.String.{String}
use text.Mathlib.Text.{◌==◌ as str_eq}
use text.Mathlib.TextEquality.{eq_iff}
use solstein.Base.{
  ℕ, ◌≤◌, ◌<◌, ◌≡◌, refl, sym, ap, subst, ◌⊎◌, inl, inr, false, ◌&&◌, Option, none, some,
  some-injective, [], ◌∷◌, ltb, leb, length, Bool-cases, Option-cases, arith,
}
use solstein.Exits.Tunnel.{idle_for, Tunnel}
use solstein.Exits.Pool.{Pool, lookup, victim_from, make_room}
use solstein.Exits.Pool.Entries.{Entries, times_named, delete-counts, absent-times}
use solstein.Exits.Pool.Counts.{IsCounted, remove-IsCounted, remove-found}

-- The name is the given one, or one of the tunnels'.
abbrev There : String → Entries → String → Type 0
There victim ts r = (r ≡ victim) ⊎ (1 ≤ times_named r ts)

There-more :
    (victim n : String) (t : Tunnel) (ts : Entries) (r : String)
    → There victim ts r
    → There victim ((n, t) ∷ ts) r
unfolding times_named
There-more victim n t ts r (inl e) = inl e
There-more victim n t ts r (inr lt) = inr (omega arith)

There-taken :
    (victim n : String) (t : Tunnel) (ts : Entries) (r : String)
    → There n ts r
    → There victim ((n, t) ∷ ts) r
unfolding times_named
There-taken victim n t ts r (inl e) = inr (rw ((eq_iff n r).1 (sym e)) (omega arith))
There-taken victim n t ts r (inr lt) = inr (omega arith)

pub victim_unused :
    (now : ℕ) (victim : String) (longest : Option ℕ) (n : String) (t : Tunnel) (ts : Entries)
    → ltb 0 t.active ≡ false
    → (victim_from now victim longest ((n, t) ∷ ts) ≡ victim_from now victim longest ts)
      ⊎ (victim_from now victim longest ((n, t) ∷ ts)
          ≡ victim_from now n (some (idle_for t now)) ts)
unfolding victim_from
victim_unused now victim none n t ts unused = inr (rw unused refl)
victim_unused now victim (some most) n t ts unused = elim (Bool-cases (ltb most (idle_for t now))) [
  | inl longer ↦ inr (rw (longer, unused) refl)
  | inr shorter ↦ inl (rw (shorter, unused) refl)
]

victim_from-cases :
    (now : ℕ) (victim : String) (longest : Option ℕ) (n : String) (t : Tunnel) (ts : Entries)
    → (victim_from now victim longest ((n, t) ∷ ts) ≡ victim_from now victim longest ts)
      ⊎ (victim_from now victim longest ((n, t) ∷ ts)
          ≡ victim_from now n (some (idle_for t now)) ts)
unfolding victim_from
victim_from-cases now victim longest n t ts = elim (Bool-cases (ltb 0 t.active)) [
  | inl busy ↦ inl (rw busy refl)
  | inr unused ↦ victim_unused now victim longest n t ts unused
]

victim_from-There :
    (now : ℕ) (victim : String) (longest : Option ℕ) (ts : Entries)
    → There victim ts (victim_from now victim longest ts)
unfolding victim_from times_named
victim_from-There now victim longest [] = inl refl
victim_from-There now victim longest ((n, t) ∷ ts) =
    let idle = idle_for t now in
    let skipped : There victim ((n, t) ∷ ts) (victim_from now victim longest ts) =
      There-more victim n t ts _ (victim_from-There now victim longest ts) in
    let taken : There victim ((n, t) ∷ ts) (victim_from now n (some idle) ts) =
      There-taken victim n t ts _ (victim_from-There now n (some idle) ts) in
    elim (victim_from-cases now victim longest n t ts) [
      | inl e ↦ subst (There victim ((n, t) ∷ ts)) (sym e) skipped
      | inr e ↦ subst (There victim ((n, t) ∷ ts)) (sym e) taken
    ]

-- There is room for a tunnel of that name, which is not there.
pub record HasRoom (name : String) (pool : Pool) : Type 0 where
  pub counted : IsCounted pool
  pub absent : times_named name pool.tunnels ≡ 0
  pub smaller : 0 < pool.max → length pool.tunnels < pool.max

pub make_room-HasRoom :
    (pool roomy : Pool) (name : String) (now : ℕ)
    → IsCounted pool
    → times_named name pool.tunnels ≡ 0
    → make_room pool now ≡ some roomy
    → HasRoom name roomy
unfolding make_room
make_room-HasRoom pool roomy name now is absent e =
    let victim = victim_from now "" none pool.tunnels in
    elim (Bool-cases (ltb 0 pool.max && leb pool.max (length pool.tunnels))) [
      | inl full ↦ elim (Bool-cases (str_eq victim "")) [
        | inl busy ↦ absurd (cc (rw (full, busy, make_room) at e))
        | inr idle ↦ elim (Option-cases (lookup victim pool.tunnels)) [
          | inl gone ↦ absurd (elim (victim_from-There now "" none pool.tunnels) [
            | inl unset ↦ cc (ap (λ v. str_eq v "") unset, (eq_iff "" "").1 refl, idle)
            | inr there ↦ omega (arith, there, absent-times victim pool.tunnels gone)
          ])
          | inr (t, found) ↦
              let (a, b, c) = delete-counts victim pool.tunnels 0 name found in
              let (d, f, g) = remove-found pool victim now found in
              let len = ap (λ (ts : Entries). length ts) d in
              let times = ap (λ (ts : Entries). times_named name ts) d in
              subst (HasRoom name) (some-injective _ _ (rw (full, idle, make_room) at e)) (record {
                counted = remove-IsCounted pool victim now is;
                absent = omega (arith, times, c);
                smaller = λ pos. omega (arith, len, a, f, is.room (omega (arith, f)));
              })
        ]
      ]
      | inr free ↦
          subst (HasRoom name) (some-injective _ _ (rw (free, make_room) at e))
            (record { counted = is; absent = absent; smaller = λ pos. ground (arith, free) })
    ]
