-- ===== src/Feeds/Publish/Order.antt =====
-- The order in which episodes are published (feeds/publish.go).
use solstein.Base.{
  ℕ, ◌<◌, ◌≡◌, refl, sym, ap, ◌∙◌, subst, inl, inr, Bool, true, false, not, ◌&&◌, ◌||◌, List, [],
  ◌∷◌, ◌++◌, ◌==◌, if◌then◌else◌, length, All, Bool-cases, arith,
}
use solstein.Models.{Episode, is_failed, is_ready}
use solstein.Feeds.Publish.{is_left_out, is_exempt, published_from, published_episodes}

abbrev pub is_settled : Episode → Bool
is_settled e = is_ready e.state || is_failed e.state

-- One more episode in front of those that end alike.
push :
    (a b h c : Bool) (id : ℕ) {o k : List ℕ} (o' k' z : List ℕ)
    → o ≡ o' ++ z
    → k ≡ k' ++ z
    → (if a then o else if b then id ∷ o else if h then o else if c then id ∷ o else k)
      ≡ (if a then o' else if b then id ∷ o' else if h then o' else if c then id ∷ o' else k') ++ z
push true b h c id o' k' z p q = p
push false true h c id o' k' z p q = ap (λ l. id ∷ l) p
push false false true c id o' k' z p q = p
push false false false true id o' k' z p q = ap (λ l. id ∷ l) p
push false false false false id o' k' z p q = q

is_empty_lem : (l : List ℕ) → (length l == 0) ≡ false → 0 < length l
is_empty_lem l h = ground arith

pending_parts :
    (a b c : Bool) → (not a && not b && not c) ≡ true → (a ≡ false) × (b ≡ false) × (c ≡ false)
pending_parts false false false h = (refl, refl, refl)
pending_parts true b c h = absurd (cc h)
pending_parts false true c h = absurd (cc h)
pending_parts false false true h = absurd (cc h)

module _ (prepare prepare_ahead : Bool) where
  -- Waiting for its file, in a feed whose episodes are prepared.
  abbrev pub is_pending : Episode → Bool
  is_pending e =
      not (is_left_out e) && not (is_exempt prepare prepare_ahead e) && not (is_settled e)

  -- Those published although an older one is pending.
  unfoldable pub exempt_ids : List Episode → List ℕ
  exempt_ids [] = []
  exempt_ids (e ∷ es) =
      if not (is_left_out e) && is_exempt prepare prepare_ahead e
      then e.id ∷ exempt_ids es
      else exempt_ids es

  unfoldable pub shown_ids : List Episode → List ℕ
  shown_ids [] = []
  shown_ids (e ∷ es) = if is_left_out e then shown_ids es else e.id ∷ shown_ids es

  held_lem : (es : List Episode) → published_from prepare prepare_ahead true es ≡ exempt_ids es
  unfolding published_from exempt_ids
  held_lem [] = refl
  held_lem (e ∷ es) = ground (arith, held_lem es)

  pending_lem :
      (holding : Bool) (xs ys : List Episode) (e : Episode)
      → is_pending e ≡ true
      → published_from prepare prepare_ahead holding (xs ++ e ∷ ys)
        ≡ published_from prepare prepare_ahead holding xs ++ exempt_ids ys
  unfolding published_from
  pending_lem true [] ys e pending =
      let (visible, needs, waits) =
        pending_parts (is_left_out e) (is_exempt prepare prepare_ahead e) (is_settled e) pending in
      rw (visible, needs) (held_lem ys)
  pending_lem false [] ys e pending =
      let (visible, needs, waits) =
        pending_parts (is_left_out e) (is_exempt prepare prepare_ahead e) (is_settled e) pending in
      rw (visible, needs, waits) (held_lem ys)
  pending_lem holding (x ∷ xs) ys e pending =
      push (is_left_out x) (is_exempt prepare prepare_ahead x) holding (is_settled x) x.id
        (published_from prepare prepare_ahead holding xs)
        (published_from prepare prepare_ahead true xs) (exempt_ids ys)
        (pending_lem holding xs ys e pending) (pending_lem true xs ys e pending)

  settled_lem :
      (es : List Episode)
      → All (λ e. is_pending e ≡ false) es
      → published_from prepare prepare_ahead false es ≡ shown_ids es
  unfolding published_from shown_ids
  settled_lem [] all = refl
  settled_lem (e ∷ es) (done, all) = ground (arith, settled_lem es)

  -- Something is always published; a pending episode holds back each newer one that is not published as
  -- it is; where none is pending, all are published but those left out.
  pub record IsFeed (es : List Episode) (published : List ℕ) : Type 0 where
    pub some_published : 0 < length es → 0 < length published
    pub in_order :
        (xs ys : List Episode) (e : Episode)
        → es ≡ xs ++ e ∷ ys
        → is_pending e ≡ true
        → 0 < length (published_from prepare prepare_ahead false xs ++ exempt_ids ys)
        → published ≡ published_from prepare prepare_ahead false xs ++ exempt_ids ys
    pub complete :
        All (λ e. is_pending e ≡ false) es → 0 < length (shown_ids es) → published ≡ shown_ids es

  published_lem :
      (es : List Episode)
      → 0 < length (published_from prepare prepare_ahead false es)
      → published_episodes prepare prepare_ahead es ≡ published_from prepare prepare_ahead false es
  unfolding published_episodes published_from
  published_lem [] h = refl
  published_lem (e ∷ es) h = ground (arith, h)

  published_length :
      (es : List Episode) → 0 < length es → 0 < length (published_episodes prepare prepare_ahead es)
  unfolding published_episodes
  published_length [] h = absurd (omega arith)
  published_length (e ∷ es) h =
      elim (Bool-cases (length (published_from prepare prepare_ahead false (e ∷ es)) == 0)) [
        | inl nothing ↦ rw nothing (omega arith)
        | inr some_ids ↦
            rw some_ids
              (is_empty_lem (published_from prepare prepare_ahead false (e ∷ es)) some_ids)
      ]

  -- Of episodes in publish order, oldest first, some are published where there is any. One that is
  -- pending (prepared first and shown, neither ready nor failed) holds back all newer ones but the shown
  -- ones that are not prepared first (dropped ones and, unless the feed prepares ahead, backlog), unless
  -- that leaves nothing to publish. Where none is pending, all are published but those that a rule hides
  -- or the failure policy withholds, unless that is all of them.
  pub published_episodes-IsFeed :
      (es : List Episode) → IsFeed es (published_episodes prepare prepare_ahead es)
  published_episodes-IsFeed es = record {
    some_published = published_length es;
    in_order = λ xs ys e split pending some_ids.
        let same =
          ap (published_from prepare prepare_ahead false) split
          ∙ pending_lem false xs ys e pending in
        published_lem es (subst (λ (l : List ℕ). 0 < length l) (sym same) some_ids) ∙ same;
    complete = λ all some_ids.
        let same = settled_lem es all in
        published_lem es (subst (λ (l : List ℕ). 0 < length l) (sym same) some_ids) ∙ same;
  }
