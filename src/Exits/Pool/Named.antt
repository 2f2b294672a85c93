-- ===== src/Exits/Pool/Named.antt =====
-- Tunnels of a pool by name, and the one to close (modules/exits/pool.go: remove, tryGet).
use Prim.Native.String.{String}
use text.Mathlib.Text.{◌==◌ as str_eq}
use text.Mathlib.TextEquality.{eq_iff}
use solstein.Base.{
  ℕ, zero, suc, ◌≤◌, ◌≡◌, refl, sym, ap, ◌∙◌, subst, ◌⊎◌, inl, inr, true, false, Option, some,
  some-injective, [], ◌∷◌, ltb, get_elem?, Bool-cases, Option-cases, arith,
}
use solstein.Exits.Tunnel.{idle_for, Tunnel}
use solstein.Exits.Pool.{Pool, lookup, delete, put, remove, victim_from}
use solstein.Exits.Pool.Entries.{Entries, times_named}
use solstein.Exits.Pool.Room.{victim_unused}
use solstein.Exits.Pool.Counts.{remove-found}

pub lookup-delete :
    (name n : String) (ts : Entries)
    → str_eq name n ≡ false
    → lookup n (delete name ts) ≡ lookup n ts
unfolding lookup delete
lookup-delete name n [] apart = refl
lookup-delete name n ((m, t) ∷ ts) apart = elim (Bool-cases (str_eq m name)) [
  | inl same ↦
      let other = ap (λ k. str_eq k n) ((eq_iff m name).0 same) ∙ apart in rw (same, other) refl
  | inr kept ↦ elim (Bool-cases (str_eq m n)) [
    | inl found ↦ rw (kept, found) refl
    | inr further ↦ rw (kept, further) (lookup-delete name n ts apart)
  ]
]

pub lookup-put :
    (name n : String) (u : Tunnel) (ts : Entries)
    → str_eq name n ≡ false
    → lookup n (put name u ts) ≡ lookup n ts
unfolding lookup put
lookup-put name n u [] apart = rw apart refl
lookup-put name n u ((m, t) ∷ ts) apart = elim (Bool-cases (str_eq m name)) [
  | inl same ↦
      let other = ap (λ k. str_eq k n) ((eq_iff m name).0 same) ∙ apart in rw (same, other) refl
  | inr kept ↦ elim (Bool-cases (str_eq m n)) [
    | inl found ↦ rw (kept, found) refl
    | inr further ↦ rw (kept, further) (lookup-put name n u ts apart)
  ]
]

pub lookup-remove :
    (pool : Pool) (name n : String) (now : ℕ)
    → str_eq name n ≡ false
    → lookup n (remove pool name now).tunnels ≡ lookup n pool.tunnels
unfolding remove
lookup-remove pool name n now apart = elim (Option-cases (lookup name pool.tunnels)) [
  | inl absent ↦ rw (absent, remove) refl
  | inr (t, found) ↦
      ap (λ (ts : Entries). lookup n ts) ((remove-found pool name now found).0)
      ∙ lookup-delete name n pool.tunnels apart
]

-- A tunnel of the name without users.
abbrev pub IdleIn : String → Entries → Type 0
IdleIn name ts = (i : ℕ) × (t : Tunnel) × (get_elem? ts i ≡ some (name, t)) × (t.active ≡ 0)

-- The given name, or that of a tunnel without users.
abbrev pub Idle : String → Entries → String → Type 0
Idle victim ts r = (r ≡ victim) ⊎ IdleIn r ts

pub Idle-more :
    (victim n : String) (t : Tunnel) (ts : Entries) (r : String)
    → Idle victim ts r
    → Idle victim ((n, t) ∷ ts) r
Idle-more victim n t ts r (inl e) = inl e
Idle-more victim n t ts r (inr (i, u, e, idle)) = inr (suc i, u, e, idle)

pub Idle-taken :
    (victim n : String) (t : Tunnel) (ts : Entries) (r : String)
    → t.active ≡ 0
    → Idle n ts r
    → Idle victim ((n, t) ∷ ts) r
Idle-taken victim n t ts r idle (inl e) = inr (0, t, ap (λ m. some (m, t)) (sym e), idle)
Idle-taken victim n t ts r idle (inr (i, u, e, idle')) = inr (suc i, u, e, idle')

pub victim_busy :
    (now : ℕ) (victim : String) (longest : Option ℕ) (n : String) (t : Tunnel) (ts : Entries)
    → ltb 0 t.active ≡ true
    → victim_from now victim longest ((n, t) ∷ ts) ≡ victim_from now victim longest ts
unfolding victim_from
victim_busy now victim longest n t ts busy = rw busy refl

pub victim_from-IdleIn :
    (now : ℕ) (victim : String) (longest : Option ℕ) (ts : Entries)
    → Idle victim ts (victim_from now victim longest ts)
unfolding victim_from
victim_from-IdleIn now victim longest [] = inl refl
victim_from-IdleIn now victim longest ((n, t) ∷ ts) =
    let skipped = Idle-more victim n t ts _ (victim_from-IdleIn now victim longest ts) in
    elim (Bool-cases (ltb 0 t.active)) [
      | inl busy ↦
          subst (Idle victim ((n, t) ∷ ts)) (sym (victim_busy now victim longest n t ts busy))
            skipped
      | inr unused ↦ elim (victim_unused now victim longest n t ts unused) [
        | inl e ↦ subst (Idle victim ((n, t) ∷ ts)) (sym e) skipped
        | inr e ↦ subst (Idle victim ((n, t) ∷ ts)) (sym e) (
            Idle-taken victim n t ts _ (ground (arith, unused))
              (victim_from-IdleIn now n (some (idle_for t now)) ts))
      ]
    ]

pub named-twice :
    (ts : Entries) (i : ℕ) (n : String) (t : Tunnel)
    → get_elem? ts i ≡ some (n, t)
    → 1 ≤ times_named n ts
unfolding times_named
named-twice [] i n t e = absurd cc
named-twice ((m, u) ∷ ts) zero n t e =
    let same : m ≡ n = ap (λ (p : String × Tunnel). p.0) (some-injective _ _ e) in
    rw ((eq_iff m n).1 same) (omega arith)
named-twice ((m, u) ∷ ts) (suc i) n t e = omega (arith, named-twice ts i n t e)

pub lookup_unique :
    (ts : Entries) (i : ℕ) (n : String) (t t' : Tunnel)
    → times_named n ts ≤ 1
    → lookup n ts ≡ some t
    → get_elem? ts i ≡ some (n, t')
    → t ≡ t'
unfolding lookup times_named
lookup_unique [] i n t t' once e e' = absurd cc
lookup_unique ((m, u) ∷ ts) zero n t t' once e e' =
    let pair = some-injective _ _ e' in
    let named : m ≡ n = ap (λ (p : String × Tunnel). p.0) pair in
    some-injective _ _ (sym (rw ((eq_iff m n).1 named, lookup) at e))
    ∙ ap (λ (p : String × Tunnel). p.1) pair
lookup_unique ((m, u) ∷ ts) (suc i) n t t' once e e' = elim (Bool-cases (str_eq m n)) [
  | inl same ↦ absurd (omega (arith, named-twice ts i n t' e', rw (same, times_named) at once))
  | inr other ↦
      lookup_unique ts i n t t' (omega (arith, rw (other, times_named) at once))
        (rw (other, lookup) at e) e'
]
