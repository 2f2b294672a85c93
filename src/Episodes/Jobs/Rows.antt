-- ===== src/Episodes/Jobs/Rows.antt =====
-- A row that is found by its identifier, before and after an update (database/pipeline.go).
use solstein.Base.{
  ℕ, ◌≡◌, refl, ap, inl, inr, Bool, true, false, ◌&&◌, some, some-injective, List, [], ◌∷◌, ◌==◌,
  Bool-cases, arith,
}
use solstein.Models.{Episode}
use solstein.Episodes.Store.{update_where, count_where}
use solstein.Episodes.Jobs.{get_episode}

-- The row that is found is the one that an update by its identifier changes.
pub get_episode-update_where :
    (feed_id id : ℕ) (selects : Episode → Bool) (change : Episode → Episode) (es : List Episode)
    (e : Episode)
    → ((x : Episode) → ((change x).id ≡ x.id) × ((change x).feed_id ≡ x.feed_id))
    → selects e ≡ true
    → get_episode feed_id id es ≡ some e
    → get_episode feed_id id (update_where selects change es) ≡ some (change e)
unfolding get_episode update_where
get_episode-update_where feed_id id selects change [] e same yes_e found = absurd (cc)
get_episode-update_where feed_id id selects change (x ∷ es) e same yes_e found =
    let (id_eq, feed_eq) = same x in
    let there : ((change x).id == id && (change x).feed_id == feed_id)
        ≡ (x.id == id && x.feed_id == feed_id) =
      rw (id_eq, feed_eq) refl in
    elim (Bool-cases (selects x)) [
      | inl chosen ↦
          rw (chosen, there)
            (elim (Bool-cases (x.id == id && x.feed_id == feed_id)) [
              | inl here ↦
                  rw here (ap (λ y. some (change y)) (some-injective x e (rw here at found)))
              | inr other ↦ rw other (
                  get_episode-update_where feed_id id selects change es e same yes_e
                    (rw other at found))
            ])
      | inr skipped ↦ rw skipped (elim (Bool-cases (x.id == id && x.feed_id == feed_id)) [
        | inl here ↦
            absurd (cc (skipped, yes_e, ap selects (some-injective x e (rw here at found))))
        | inr other ↦
            rw other (
              get_episode-update_where feed_id id selects change es e same yes_e
                (rw other at found))
      ])
    ]

pub count_lem :
    (feed_id id : ℕ) (selects : Episode → Bool) (es : List Episode) (e : Episode)
    → selects e ≡ true
    → get_episode feed_id id es ≡ some e
    → (count_where selects es == 0) ≡ false
unfolding get_episode count_where
count_lem feed_id id selects [] e chosen found = absurd (cc)
count_lem feed_id id selects (x ∷ es) e chosen found = elim (Bool-cases (selects x)) [
  | inl taken ↦ rw taken (ground arith)
  | inr skipped ↦ rw skipped (elim (Bool-cases (x.id == id && x.feed_id == feed_id)) [
    | inl here ↦ absurd (cc (skipped, chosen, ap selects (some-injective x e (rw here at found))))
    | inr other ↦ count_lem feed_id id selects es e chosen (rw other at found)
  ])
]
