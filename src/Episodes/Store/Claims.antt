-- ===== src/Episodes/Store/Claims.antt =====
-- Which episode a worker claims (database/pipeline.go, ClaimNextEpisode).
use Prim.Native.String.{String}
use solstein.Base.{
  ℕ, suc, ◌≡◌, refl, subst, inl, inr, Bool, true, false, ◌&&◌, Option, none, some, some-injective,
  List, [], ◌∷◌, ◌==◌, ltb, All, get_elem?, Bool-cases, Option-cases, arith,
}
use solstein.Models.{Feed, Episode, is_discovered}
use solstein.Episodes.Store.{
  null_last, is_older, take_first, update_where, is_waiting, acquire, claim_next_episode,
}

asym_columns :
    (a b : Option ℕ) (s t : ℕ)
    → null_last a b ltb (ltb s t) ≡ true
    → null_last b a ltb (ltb t s) ≡ false
asym_columns none none s t h = ground arith
asym_columns none (some b) s t h = absurd (cc h)
asym_columns (some a) none s t h = refl
asym_columns (some a) (some b) s t h = ground arith

trans_columns :
    (a b c : Option ℕ) (s t u : ℕ)
    → null_last a b ltb (ltb s t) ≡ false
    → null_last b c ltb (ltb t u) ≡ false
    → null_last a c ltb (ltb s u) ≡ false
trans_columns none none none s t u h k = ground arith
trans_columns none none (some c) s t u h k = refl
trans_columns none (some b) none s t u h k = absurd (cc k)
trans_columns none (some b) (some c) s t u h k = refl
trans_columns (some a) none c s t u h k = absurd (cc h)
trans_columns (some a) (some b) none s t u h k = absurd (cc k)
trans_columns (some a) (some b) (some c) s t u h k = ground arith

-- No selected row of the table comes before this one.
abbrev pub IsFirst : (Episode → Bool) → Episode → List Episode → Type 0
IsFirst selects e = All (λ x. selects x ≡ true → is_older x e ≡ false)

later :
    (selects : Episode → Bool) (e r : Episode) (es : List Episode)
    → is_older r e ≡ false
    → IsFirst selects r es
    → IsFirst selects e es
unfolding is_older
later selects e r [] h first = tt
later selects e r (x ∷ xs) h first = (
  λ chosen.
      trans_columns x.published_at r.published_at e.published_at x.created_at r.created_at
        e.created_at (first.0 chosen) h,
  later selects e r xs h first.1,
)

-- Found at a place of the table, selected, and first.
abbrev Found : (Episode → Bool) → Episode → List Episode → Type 0
Found selects e es =
    ((i : ℕ) × (get_elem? es i ≡ some e)) × (selects e ≡ true) × IsFirst selects e es

nothing-IsFirst :
    (selects : Episode → Bool) (e : Episode) (es : List Episode)
    → take_first selects is_older es ≡ none
    → IsFirst selects e es
unfolding take_first
nothing-IsFirst selects e [] h = tt
nothing-IsFirst selects e (x ∷ xs) h = elim (Bool-cases (selects x)) [
  | inl chosen ↦ elim (Option-cases (take_first selects is_older xs)) [
    | inl empty ↦ absurd (cc (rw (chosen, empty) at h))
    | inr (r, rest) ↦ elim (Bool-cases (is_older r x)) [
      | inl older ↦ absurd (cc (rw (chosen, rest, older) at h))
      | inr newer ↦ absurd (cc (rw (chosen, rest, newer) at h))
    ]
  ]
  | inr skipped ↦
      (λ chosen. absurd (cc (skipped, chosen)), nothing-IsFirst selects e xs (rw skipped at h))
]

-- One row further on.
later-Found :
    (selects : Episode → Bool) (x e : Episode) (xs : List Episode)
    → (selects x ≡ true → is_older x e ≡ false)
    → Found selects e xs
    → Found selects e (x ∷ xs)
later-Found selects x e xs h ((i, at_i), chosen, first) = ((suc i, at_i), chosen, (h, first))

older_asym : (r x : Episode) → is_older r x ≡ true → is_older x r ≡ false
unfolding is_older
older_asym r x = asym_columns r.published_at x.published_at r.created_at x.created_at

older_irrefl : (x : Episode) → is_older x x ≡ false
older_irrefl x = elim (Bool-cases (is_older x x)) [
  | inl older ↦ absurd (cc (older, older_asym x x older))
  | inr newer ↦ newer
]

take_first-Found :
    (selects : Episode → Bool) (es : List Episode) (e : Episode)
    → take_first selects is_older es ≡ some e
    → Found selects e es
unfolding take_first
take_first-Found selects [] e h = absurd (cc h)
take_first-Found selects (x ∷ xs) e h = elim (Bool-cases (selects x)) [
  | inl chosen ↦ elim (Option-cases (take_first selects is_older xs)) [
    | inl empty ↦
        let same = some-injective x e (rw (chosen, empty) at h) in
        subst (λ y. Found selects y (x ∷ xs)) same
          ((0, refl), chosen, (λ _. older_irrefl x, nothing-IsFirst selects x xs empty))
    | inr (r, rest) ↦
        let found = take_first-Found selects xs r rest in
        elim (Bool-cases (is_older r x)) [
          | inl older ↦
              let same = some-injective r e (rw (chosen, rest, older) at h) in
              subst (λ y. Found selects y (x ∷ xs)) same
                (later-Found selects x r xs (λ _. older_asym r x older) found)
          | inr newer ↦
              let same = some-injective x e (rw (chosen, rest, newer) at h) in
              subst (λ y. Found selects y (x ∷ xs)) same
                ((0, refl), chosen, (λ _. older_irrefl x, later selects x r xs newer found.2))
        ]
  ]
  | inr skipped ↦
      later-Found selects x e xs (λ chosen. absurd (cc (skipped, chosen)))
        (take_first-Found selects xs e (rw skipped at h))
]

-- No row with the identifier is left to be claimed.
taken_lem :
    (id : ℕ) (es : List Episode)
    → All
        (λ x. (x.id == id) ≡ true → is_discovered x.state ≡ false)
        (update_where (λ row. row.id == id && is_discovered row.state) acquire es)
unfolding update_where
taken_lem id [] = tt
taken_lem id (x ∷ xs) = (
  elim (Bool-cases (x.id == id && is_discovered x.state)) [
    | inl taken ↦ rw taken (λ same. refl)
    | inr kept ↦ rw kept (λ same. ground (arith, kept, same))
  ],
  taken_lem id xs,
)

-- A row that was waiting, the first of those in the order of their dates, marked as acquiring; the
-- table has none with its identifier that could be claimed again.
pub record IsClaim (waits : Episode → Bool) (es : List Episode) (e : Episode) (table : List Episode)
    : Type 0 where
  pub row : Episode
  pub place : (i : ℕ) × (get_elem? es i ≡ some row)
  pub waiting : waits row ≡ true
  pub oldest : All (λ x. waits x ≡ true → is_older x row ≡ false) es
  pub claimed : e ≡ acquire row
  pub taken : All (λ x. (x.id == e.id) ≡ true → is_discovered x.state ≡ false) table

-- A claim gives a row of the table that was waiting, none of those waiting older than it, marked as
-- acquiring; no row with its identifier is left discovered.
pub claim_next_episode-IsClaim :
    (feeds : List Feed) (mode : String) (processed_feeds : List ℕ) (now : ℕ)
    (es table : List Episode) (e : Episode)
    → claim_next_episode feeds mode processed_feeds now es ≡ some (e, table)
    → IsClaim (is_waiting feeds mode processed_feeds now) es e table
unfolding claim_next_episode
claim_next_episode-IsClaim feeds mode processed_feeds now es table e h =
    let waits = is_waiting feeds mode processed_feeds now in
    elim (Option-cases (take_first waits is_older es)) [
      | inl empty ↦ absurd (cc (rw (empty, claim_next_episode) at h))
      | inr (row, found) ↦
          let (place, waiting, oldest) = take_first-Found waits es row found in
          let updated = update_where (λ x. x.id == row.id && is_discovered x.state) acquire es in
          let same =
            some-injective (acquire row, updated) (e, table)
              (rw (found, claim_next_episode) at h) in
          subst (λ (r : Episode × List Episode). IsClaim waits es r.0 r.1) same
            (record {
              row = row;
              place = place;
              waiting = waiting;
              oldest = oldest;
              claimed = refl;
              taken = taken_lem row.id es;
            })
    ]
