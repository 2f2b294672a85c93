-- ===== src/Base/Loop.antt =====
-- A Go `for` loop: its body says whether another round follows. `none` is fuel that ran out.
use Prim.Native.Nat.{ℕ, zero, suc, ◌<◌}
use mathlib.Core.Path.{◌≡◌, refl, subst}
use mathlib.Core.Logic.{◌⊎◌, inl, inr}
use mathlib.Core.Option.{Option, none, some, some-injective}
use native.Mathlib.Omega.{arith}

pub data Round {ℓ} (S : Type ℓ) : Type ℓ where
  more : S → Round S
  stop : S → Round S

unfoldable pub iterate {ℓ} : {S : Type ℓ} → (S → Round S) → ℕ → S → Option S
iterate body zero s = none
iterate body (suc fuel) s = elim (body s) [ more s' ↦ iterate body fuel s' | stop s' ↦ some s' ]

pub Round-cases {ℓ} :
    {S : Type ℓ} (r : Round S) → ((s : S) × (r ≡ more s)) ⊎ ((s : S) × (r ≡ stop s))
Round-cases (more s) = inl (s, refl)
Round-cases (stop s) = inr (s, refl)

-- What each round keeps and the last one turns into `Q` holds when the loop has ended.
pub iterate_inv {ℓ κ} :
    {S : Type ℓ} (P Q : S → Type κ) (body : S → Round S)
    → ((s s' : S) → P s → body s ≡ more s' → P s')
    → ((s s' : S) → P s → body s ≡ stop s' → Q s')
    → (fuel : ℕ) (s t : S) → P s
    → iterate body fuel s ≡ some t
    → Q t
unfolding iterate
iterate_inv P Q body keep done zero s t p h = absurd (cc)
iterate_inv P Q body keep done (suc fuel) s t p h = elim (Round-cases (body s)) [
  | inl (s', e) ↦ iterate_inv P Q body keep done fuel s' t (keep s s' p e) (rw (e, iterate) at h)
  | inr (s', e) ↦ subst Q (some-injective s' t (rw (e, iterate) at h)) (done s s' p e)
]

-- With a measure that every further round lowers, that much fuel is enough.
pub iterate_total {ℓ κ} :
    {S : Type ℓ} (P : S → Type κ) (measure : S → ℕ) (body : S → Round S)
    → ((s s' : S) → P s → body s ≡ more s' → P s' × (measure s' < measure s))
    → (fuel : ℕ) (s : S) → P s
    → measure s < fuel
    → (t : S) × (iterate body fuel s ≡ some t)
unfolding iterate
iterate_total P measure body keep zero s p m = absurd (omega arith)
iterate_total P measure body keep (suc fuel) s p m = elim (Round-cases (body s)) [
  | inl (s', e) ↦
      let (p', lower) = keep s s' p e in
      rw (e, iterate) (iterate_total P measure body keep fuel s' p' (omega arith))
  | inr (s', e) ↦ (s', rw (e, iterate))
]
