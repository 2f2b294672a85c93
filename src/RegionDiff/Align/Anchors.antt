-- ===== src/RegionDiff/Align/Anchors.antt =====
-- Where the anchors that `inOrder` keeps lie (modules/regiondiff/diff.go).
use solstein.Base.{
  ℕ, zero, suc, ◌+◌, ◌-◌, ◌≤◌, ◌<◌, ◌≡◌, refl, ap, subst, inl, inr, not, Option, none, some, List,
  [], ◌∷◌, ◌==◌, ltb, leb, length, get_or, set, All, All-append, All-get, drop, Bool-cases,
  Option-cases, ltb_false→le, arith,
}
use solstein.RegionDiff.Run.{Run, anchor_frames}
use solstein.RegionDiff.Align.{
  grams_from, grams, count, index_from, other_index, anchors_from, anchors, insert_by_home,
  sort_by_home, no_run, Tails, add_at, add_anchor, add_anchors, follow, in_order,
}

-- An anchor lies inside both sequences.
abbrev pub IsWithin : ℕ → ℕ → Run → Type 0
IsWithin home_end other_end r =
    (r.length ≡ anchor_frames)
    × (r.home + anchor_frames ≤ home_end)
    × (r.other + anchor_frames ≤ other_end)

-- What holds of all anchors holds of those that `in_order` keeps.
module _ {ℓ} (P : Run → Type ℓ) where
  insert_by_home-All : (r : Run) (rs : List Run) → P r → All P rs → All P (insert_by_home r rs)
  unfolding insert_by_home
  insert_by_home-All r [] h hs = (h, tt)
  insert_by_home-All r (x ∷ xs) h (a, b) = elim (Bool-cases (leb r.home x.home)) [
    | inl le ↦ rw le (h, (a, b))
    | inr gt ↦ rw gt (a, insert_by_home-All r xs h b)
  ]

  sort_by_home-All : (rs : List Run) → All P rs → All P (sort_by_home rs)
  unfolding sort_by_home
  sort_by_home-All [] h = tt
  sort_by_home-All (r ∷ rs) (a, b) =
      insert_by_home-All r (sort_by_home rs) a (sort_by_home-All rs b)

abbrev Below : ℕ → Option ℕ → Type 0
Below n none = Unit
Below n (some i) = i < n

-- Every index that the loop has stored is one of an anchor.
record Indexed (n : ℕ) (s : Tails) : Type 0 where
  tails : All (λ t. t < n) s.tails
  previous : All (Below n) s.previous

All-set :
    (n : ℕ) (xs : List ℕ) (i v : ℕ) → v < n → All (λ t. t < n) xs → All (λ t. t < n) (set xs i v)
All-set n [] i v h hs = tt
All-set n (x ∷ xs) zero v h (a, b) = (h, b)
All-set n (x ∷ xs) (suc i) v h (a, b) = (a, All-set n xs i v h b)

get_or-Below : (n : ℕ) (xs : List ℕ) (i : ℕ) → 0 < n → All (λ t. t < n) xs → get_or xs i 0 < n
get_or-Below n [] i h hs = h
get_or-Below n (x ∷ xs) zero h (a, b) = a
get_or-Below n (x ∷ xs) (suc i) h (a, b) = get_or-Below n xs i h b

get_or-previous :
    (n : ℕ) (xs : List (Option ℕ)) (i : ℕ) → All (Below n) xs → Below n (get_or xs i none)
get_or-previous n [] i hs = tt
get_or-previous n (x ∷ xs) zero (a, b) = a
get_or-previous n (x ∷ xs) (suc i) (a, b) = get_or-previous n xs i b

add_at-Indexed : (n k i : ℕ) (s : Tails) → i < n → Indexed n s → Indexed n (add_at k i s)
unfolding add_at
add_at-Indexed n k i s h inv = record {
  tails = elim (Bool-cases (k == length s.tails)) [
    | inl last ↦ rw last (All-append (λ t. t < n) s.tails (i ∷ []) inv.tails (h, tt))
    | inr inner ↦ rw inner (All-set n s.tails k i h inv.tails)
  ];
  previous = All-append (Below n) s.previous _ inv.previous (elim (Bool-cases (ltb 0 k)) [
    | inl pos ↦ rw pos (get_or-Below n s.tails (k - 1) (omega arith) inv.tails, tt)
    | inr first ↦ rw first (tt, tt)
  ]);
}

add_anchors-Indexed :
    (all : List Run) (n i : ℕ) (rest : List Run) (s : Tails)
    → i + length rest ≤ n
    → Indexed n s
    → Indexed n (add_anchors all i rest s)
unfolding add_anchors add_anchor
add_anchors-Indexed all n i [] s h inv = inv
add_anchors-Indexed all n i (anchor ∷ rest) s h inv =
    add_anchors-Indexed all n (suc i) rest (add_anchor all i anchor s) (omega arith)
      (add_at-Indexed n _ i s (omega arith) inv)

follow-All {ℓ} :
    (P : Run → Type ℓ) (all : List Run) (previous : List (Option ℕ)) (n i : ℕ) (chain : List Run)
    → All P all
    → All (Below (length all)) previous
    → i < length all
    → All P chain
    → All P (follow all previous n i chain)
unfolding follow
follow-All P all previous zero i chain h hp lt hc = hc
follow-All P all previous (suc n) i chain h hp lt hc =
    elim (Option-cases (get_or previous i none)) [
      | inl last ↦ rw (last, follow) (All-get P all i no_run h lt, hc)
      | inr (j, back) ↦
          let below : Below (length all) (some j) =
            subst (Below (length all)) back (get_or-previous (length all) previous i hp) in
          rw (back, follow)
            (follow-All P all previous n j (get_or all i no_run ∷ chain) h hp below
              (All-get P all i no_run h lt, hc))
    ]

abbrev start : Tails
start = record { tails = []; previous = [] }

chain-All {ℓ} :
    (P : Run → Type ℓ) (all : List Run)
    → All P all
    → let s = add_anchors all 0 all start in
      All P (follow all s.previous (length s.tails) (get_or s.tails (length s.tails - 1) 0) [])
chain-All P [] h = unfold add_anchors follow in tt
chain-All P (a ∷ more) h =
    let all = a ∷ more in
    let s = add_anchors all 0 all start in
    let inv =
      add_anchors-Indexed all (length all) 0 all start (omega arith)
        (record { tails = tt; previous = tt }) in
    follow-All P all s.previous (length s.tails) (get_or s.tails (length s.tails - 1) 0) [] h
      inv.previous (get_or-Below (length all) s.tails (length s.tails - 1) (omega arith) inv.tails)
      tt

pub in_order-All {ℓ} : (P : Run → Type ℓ) (rs : List Run) → All P rs → All P (in_order rs)
unfolding in_order
in_order-All P rs h = chain-All P (sort_by_home rs) (sort_by_home-All P rs h)

length-grams_from : (n : ℕ) (hashes : List ℕ) → length (grams_from n hashes) ≡ n
unfolding grams_from
length-grams_from zero hashes = refl
length-grams_from (suc n) hashes = ap suc (length-grams_from n (drop 1 hashes))

-- There is a group for each index up to which a whole group is left.
pub length-grams :
    (hashes : List ℕ) (i : ℕ) → i < length (grams hashes) → i + anchor_frames ≤ length hashes
unfolding grams
length-grams hashes i h = elim (Bool-cases (ltb (length hashes) anchor_frames)) [
  | inl short ↦ absurd (omega (arith, rw short at h))
  | inr enough ↦ omega (
    arith,
    rw enough at h,
    length-grams_from (length hashes - anchor_frames + 1) hashes,
    ltb_false→le _ _ enough,
  )
]

index_from-lt :
    (i value : ℕ) (xs : List ℕ) {j : ℕ} → index_from i value xs ≡ some j → j < i + length xs
unfolding index_from
index_from-lt i value [] e = absurd (cc)
index_from-lt i value (x ∷ xs) {j} e = elim (Option-cases (index_from (suc i) value xs)) [
  | inl last ↦ ground (arith, last)
  | inr (k, later) ↦ ground (arith, later, index_from-lt (suc i) value xs later)
]

other_index-lt : (xs : List ℕ) (gram : ℕ) {j : ℕ} → other_index xs gram ≡ some j → j < length xs
unfolding other_index
other_index-lt xs gram {j} e = elim (Bool-cases (count gram xs == 1)) [
  | inl once ↦ omega (arith, index_from-lt 0 gram xs (rw (once, other_index) at e))
  | inr many ↦ absurd (cc (rw (many, other_index) at e))
]

anchors_from-IsWithin :
    (a b i : ℕ) (home other gs : List ℕ)
    → ((k : ℕ) → k < i + length gs → k + anchor_frames ≤ a)
    → ((k : ℕ) → k < length other → k + anchor_frames ≤ b)
    → All (IsWithin a b) (anchors_from i home other gs)
unfolding anchors_from
anchors_from-IsWithin a b i home other [] ha hb = tt
anchors_from-IsWithin a b i home other (gram ∷ gs) ha hb =
    let rest = anchors_from-IsWithin a b (suc i) home other gs (λ k lt. ha k (omega arith)) hb in
    elim (Bool-cases (not (count gram home == 1))) [
      | inl many ↦ rw many rest
      | inr once ↦ elim (Option-cases (other_index other gram)) [
        | inl none' ↦ rw (once, none') rest
        | inr (j, found) ↦
            rw (once, found)
              ((refl, ha i (omega arith), hb j (other_index-lt other gram found)), rest)
      ]
    ]

-- The anchors that two downloads' hashes give lie inside them.
pub anchors-IsWithin :
    (home other : List ℕ)
    → All (IsWithin (length home) (length other)) (in_order (anchors (grams home) (grams other)))
unfolding anchors
anchors-IsWithin home other =
    in_order-All (IsWithin (length home) (length other)) (anchors (grams home) (grams other)) (
      anchors_from-IsWithin (length home) (length other) 0 (grams home) (grams other) (grams home)
        (λ k lt. length-grams home k (omega arith)) (length-grams other))
