-- ===== src/Mp3/Silent/Laws.antt =====
-- What a silent frame keeps, and what it claims (mp3/mp3.go, SilentFrame).
use solstein.Base.{
  ℕ, zero, suc, ◌+◌, ◌-◌, ◌≤◌, ◌<◌, min, ◌≡◌, refl, subst, ap, ◌∙◌, ◌⊎◌, inl, inr, true, List, [],
  ◌∷◌, ◌++◌, length, get_or, set, take, drop, replicate, length-append, length-take, length-drop,
  length-replicate, arith,
}
use solstein.Mp3.Header.{Header, side_info_size, main_data_offset}
use solstein.Mp3.Frame.{main_data_begin}
use solstein.Mp3.Silent.{clear, write_crc, side_info_start, silence}

length-set : (xs : List ℕ) (i v : ℕ) → length (set xs i v) ≡ length xs
length-set [] i v = refl
length-set (x ∷ xs) zero v = refl
length-set (x ∷ xs) (suc i) v = ap suc (length-set xs i v)

drop-set : (xs : List ℕ) (n i v : ℕ) → i < n → drop n (set xs i v) ≡ drop n xs
drop-set [] zero i v h = absurd (omega arith)
drop-set [] (suc n) i v h = refl
drop-set (x ∷ xs) zero i v h = absurd (omega arith)
drop-set (x ∷ xs) (suc n) zero v h = refl
drop-set (x ∷ xs) (suc n) (suc i) v h = drop-set xs n i v (omega arith)

get_or-set : (xs : List ℕ) (i j v : ℕ) → i < j → get_or (set xs i v) j 0 ≡ get_or xs j 0
get_or-set [] i j v h = refl
get_or-set (x ∷ xs) zero zero v h = absurd (omega arith)
get_or-set (x ∷ xs) zero (suc j) v h = refl
get_or-set (x ∷ xs) (suc i) zero v h = absurd (omega arith)
get_or-set (x ∷ xs) (suc i) (suc j) v h = get_or-set xs i j v (omega arith)

drop-append : (n : ℕ) (xs ys : List ℕ) → length xs ≤ n → drop n (xs ++ ys) ≡ drop (n - length xs) ys
drop-append n [] ys h = ap (λ (k : ℕ). drop k ys) (omega arith)
drop-append zero (x ∷ xs) ys h = absurd (omega arith)
drop-append (suc n) (x ∷ xs) ys h =
    drop-append n xs ys (omega arith) ∙ ap (λ (k : ℕ). drop k ys) (omega arith)

get_or-append :
    (n : ℕ) (xs ys : List ℕ) → length xs ≤ n → get_or (xs ++ ys) n 0 ≡ get_or ys (n - length xs) 0
get_or-append n [] ys h = ap (λ (k : ℕ). get_or ys k 0) (omega arith)
get_or-append zero (x ∷ xs) ys h = absurd (omega arith)
get_or-append (suc n) (x ∷ xs) ys h =
    get_or-append n xs ys (omega arith) ∙ ap (λ (k : ℕ). get_or ys k 0) (omega arith)

get_or-replicate : (k n : ℕ) (ys : List ℕ) → n < k → get_or (replicate k 0 ++ ys) n 0 ≡ 0
get_or-replicate zero n ys h = absurd (omega arith)
get_or-replicate (suc k) zero ys h = refl
get_or-replicate (suc k) (suc n) ys h = get_or-replicate k n ys (omega arith)

module _ (from to : ℕ) (xs : List ℕ) (le : from ≤ to) (fits : to ≤ length xs) where
  length-clear : length (clear from to xs) ≡ length xs
  unfolding clear
  length-clear = omega (
    arith,
    length-append (take from xs) (replicate (to - from) 0 ++ drop to xs),
    length-append (replicate (to - from) 0) (drop to xs),
    length-take from xs,
    length-replicate {A = ℕ} (to - from) 0,
    length-drop to xs,
  )

  drop-clear : drop to (clear from to xs) ≡ drop to xs
  unfolding clear
  drop-clear =
      let head : length (take from xs) ≡ from = omega (arith, length-take from xs) in
      let zeros = length-replicate {A = ℕ} (to - from) 0 in
      let done : to - from - length (replicate {A = ℕ} (to - from) 0) ≡ 0 = omega arith in
      let left : to - length (take from xs) ≡ to - from = omega arith in
      drop-append to (take from xs) (replicate (to - from) 0 ++ drop to xs) (omega arith)
      ∙ (ap (λ (k : ℕ). drop k (replicate (to - from) 0 ++ drop to xs)) left
          ∙ (drop-append (to - from) (replicate (to - from) 0) (drop to xs) (omega arith)
              ∙ ap (λ (k : ℕ). drop k (drop to xs)) done))

  get_or-clear : (i : ℕ) → from ≤ i → i < to → get_or (clear from to xs) i 0 ≡ 0
  unfolding clear
  get_or-clear i lo hi =
      let head : length (take from xs) ≡ from = omega (arith, length-take from xs) in
      get_or-append i (take from xs) (replicate (to - from) 0 ++ drop to xs) (omega arith)
      ∙ get_or-replicate (to - from) (i - length (take from xs)) (drop to xs) (omega arith)

length-write_crc : (a b : ℕ) (xs : List ℕ) → length (write_crc a b xs) ≡ length xs
unfolding write_crc
length-write_crc a b xs = length-set _ 5 _ ∙ length-set xs 4 _

drop-write_crc : (a b n : ℕ) (xs : List ℕ) → 6 ≤ n → drop n (write_crc a b xs) ≡ drop n xs
unfolding write_crc
drop-write_crc a b n xs h = drop-set _ n 5 _ (omega arith) ∙ drop-set xs n 4 _ (omega arith)

get_or-write_crc : (a b i : ℕ) (xs : List ℕ) → 6 ≤ i → get_or (write_crc a b xs) i 0 ≡ get_or xs i 0
unfolding write_crc
get_or-write_crc a b i xs h = get_or-set _ 5 i _ (omega arith) ∙ get_or-set xs 4 i _ (omega arith)

main_data_offset_lem : (h : Header) → main_data_offset h ≡ side_info_start h + side_info_size h
unfolding main_data_offset
main_data_offset_lem h = ground arith

side_info_size_pos : (h : Header) → 9 ≤ side_info_size h
unfolding side_info_size
side_info_size_pos h = ground arith

abbrev stop_at : Header → List ℕ → ℕ
stop_at h bytes = min (side_info_start h + side_info_size h) (length bytes)

silence-cases :
    (h : Header) (bytes : List ℕ)
    → let cleared = clear (side_info_start h) (stop_at h bytes) bytes in
      (silence h bytes ≡ cleared)
      ⊎ ((h.protected ≡ true)
          × (silence h bytes ≡ write_crc (side_info_start h) (stop_at h bytes) cleared))
unfolding silence
silence-cases h bytes = ground arith

-- A silent frame is as long as the frame that it stands for, of at least six bytes.
pub length-silence :
    (h : Header) (bytes : List ℕ) → 6 ≤ length bytes → length (silence h bytes) ≡ length bytes
length-silence h bytes room =
    let cleared : length (clear (side_info_start h) (stop_at h bytes) bytes) ≡ length bytes =
      length-clear (side_info_start h) (stop_at h bytes) bytes (ground arith) (omega arith) in
    elim (silence-cases h bytes) [
      | inl e ↦ ap (λ (l : List ℕ). length l) e ∙ cleared
      | inr (_, e) ↦ ap (λ (l : List ℕ). length l) e ∙ (length-write_crc _ _ _ ∙ cleared)
    ]

module _ (h : Header) (bytes : List ℕ) (room : main_data_offset h ≤ length bytes) where
  stop_at_lem :
      (side_info_start h + 9 ≤ (stop_at h bytes)) × ((stop_at h bytes) ≡ main_data_offset h)
  stop_at_lem = omega (arith, main_data_offset_lem h, side_info_size_pos h)

  -- For a frame at least as long as its side information, the bytes behind that are the frame's own
  -- in its silent version, so what later frames borrow from it is still there.
  pub drop-silence : drop (main_data_offset h) (silence h bytes) ≡ drop (main_data_offset h) bytes
  drop-silence =
      let (low, at) = stop_at_lem in
      let cleared : drop (main_data_offset h) (clear (side_info_start h) (stop_at h bytes) bytes)
          ≡ drop (main_data_offset h) bytes =
        subst (λ n. drop n (clear (side_info_start h) (stop_at h bytes) bytes) ≡ drop n bytes) at
          (drop-clear (side_info_start h) (stop_at h bytes) bytes (omega arith) (omega arith)) in
      elim (silence-cases h bytes) [
        | inl e ↦ ap (λ (l : List ℕ). drop (main_data_offset h) l) e ∙ cleared
        | inr (_, e) ↦
            ap (λ (l : List ℕ). drop (main_data_offset h) l) e
            ∙ (drop-write_crc _ _ _ _ (omega arith) ∙ cleared)
      ]

  side_info_zero :
      (i : ℕ) → side_info_start h ≤ i → i < side_info_start h + 9 → get_or (silence h bytes) i 0 ≡ 0
  side_info_zero i lo hi =
      let (low, at) = stop_at_lem in
      let cleared =
        get_or-clear (side_info_start h) (stop_at h bytes) bytes (omega arith) (omega arith) i lo
          (omega arith) in
      elim (silence-cases h bytes) [
        | inl e ↦ ap (λ (l : List ℕ). get_or l i 0) e ∙ cleared
        | inr (p, e) ↦
            ap (λ (l : List ℕ). get_or l i 0) e
            ∙ (get_or-write_crc _ _ i _ (ground (arith, lo)) ∙ cleared)
      ]

  -- For a frame at least as long as its side information, the silent version borrows nothing from the
  -- frames before it.
  pub main_data_begin-silence : main_data_begin (silence h bytes) h ≡ 0
  unfolding main_data_begin
  main_data_begin-silence =
      let a = side_info_zero (side_info_start h) (omega arith) (omega arith) in
      let b = side_info_zero (side_info_start h + 1) (omega arith) (omega arith) in
      ground (arith, a, b)
