-- ===== src/Episodes/Housekeeping/Cap.antt =====
-- What the cap on the cache's size removes (episodes/housekeeping.go, enforceSizeCap).
use solstein.Base.{
  ℕ, zero, suc, ◌+◌, ◌-◌, ◌≤◌, ◌<◌, ◌≡◌, ◌⊎◌, refl, inl, inr, Bool, true, false, List, [], ◌∷◌, leb,
  All, Bool-cases, arith,
}
use solstein.Models.{Episode}
use solstein.Episodes.Housekeeping.{
  Removal, removed, left_there, error, Swept, total_size, cached_by_age, evict_from,
  enforce_size_cap,
}

module _ (remove : Episode → Removal) (kept : Episode → Bool) where
  -- Each was removed while the total was over the cap.
  abbrev pub IsNeeded : ℕ → ℕ → List Episode → Type 0
  IsNeeded cap total [] = Unit
  IsNeeded cap total (e ∷ es) = (cap < total) × IsNeeded cap (total - e.cache_size) es

  -- Kept although the total may be over the cap.
  abbrev pub IsStuck : Episode → Type 0
  IsStuck e = (kept e ≡ true) ⊎ (remove e ≡ left_there)

  pub record IsCapped (cap total : ℕ) (es : List Episode) (swept : Swept) : Type 0 where
    pub sizes : total_size swept.gone + total_size swept.left ≡ total_size es
    pub permitted : All (λ e. (kept e ≡ false) × (remove e ≡ removed)) swept.gone
    pub needed : IsNeeded cap total swept.gone
    pub enough :
        swept.ended ≡ false → (total ≤ cap + total_size swept.gone) ⊎ All IsStuck swept.left

  Removal-cases : (r : Removal) → (r ≡ removed) ⊎ ((r ≡ left_there) ⊎ (r ≡ error))
  Removal-cases removed = inl refl
  Removal-cases left_there = inr (inl refl)
  Removal-cases error = inr (inr refl)

  stuck_more :
      (cap total : ℕ) (e : Episode) (es : List Episode) (swept : Swept)
      → IsStuck e
      → IsCapped cap total es swept
      → IsCapped cap total (e ∷ es) (record swept { left = e ∷ swept.left })
  stuck_more cap total e es swept stuck is = record {
    sizes = omega (arith, is.sizes);
    permitted = is.permitted;
    needed = is.needed;
    enough = λ h. elim (is.enough h) [ inl fits ↦ inl fits | inr all ↦ inr (stuck, all) ];
  }

  evict_from-IsCapped :
      (cap total : ℕ) (es : List Episode)
      → total_size es ≤ total
      → IsCapped cap total es (evict_from remove cap kept total es)
  unfolding evict_from
  evict_from-IsCapped cap total [] le = record {
    sizes = refl;
    permitted = tt;
    needed = tt;
    enough = λ h. inr tt;
  }
  evict_from-IsCapped cap total (e ∷ es) le = elim (Bool-cases (leb total cap)) [
    | inl fits ↦ rw fits (record {
      sizes = omega arith;
      permitted = tt;
      needed = tt;
      enough = λ h. inl (ground (arith, fits));
    })
    | inr over ↦ rw over (elim (Bool-cases (kept e)) [
      | inl keeps ↦ rw keeps (
          stuck_more cap total e es (evict_from remove cap kept total es) (inl keeps)
            (evict_from-IsCapped cap total es (omega arith)))
      | inr free ↦ rw free (elim (Removal-cases (remove e)) [
        | inl gone ↦
            let is = evict_from-IsCapped cap (total - e.cache_size) es (omega arith) in
            let above : cap < total = ground (arith, over) in
            rw gone (record {
              sizes = omega (arith, is.sizes);
              permitted = ((free, gone), is.permitted);
              needed = (above, is.needed);
              enough = λ h. elim (is.enough h) [
                | inl fits ↦ inl (omega (arith, fits))
                | inr all ↦ inr all
              ];
            })
        | inr (inl there) ↦ rw there (
            stuck_more cap total e es (evict_from remove cap kept total es) (inr there)
              (evict_from-IsCapped cap total es (omega arith)))
        | inr (inr failed) ↦ rw failed (record {
          sizes = omega arith;
          permitted = tt;
          needed = tt;
          enough = λ h. absurd (cc h);
        })
      ])
    ])
  ]

  -- For a cap that is set: only what may be removed is, each while the rest was over the cap. Where no
  -- error of a removal ended the sweep, the rest is then within the cap, or nothing more could be
  -- removed.
  pub enforce_size_cap-IsCapped :
      (cap : ℕ) (es : List Episode)
      → 0 < cap
      → let cached = cached_by_age es in
        IsCapped cap (total_size cached) cached (enforce_size_cap remove cap kept es)
  unfolding enforce_size_cap
  enforce_size_cap-IsCapped zero es pos = absurd (omega arith)
  enforce_size_cap-IsCapped (suc cap) es pos =
      evict_from-IsCapped (suc cap) (total_size (cached_by_age es)) (cached_by_age es) (omega arith)
