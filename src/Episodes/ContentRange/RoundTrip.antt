-- ===== src/Episodes/ContentRange/RoundTrip.antt =====
-- Reading a Content-Range that a source printed (episodes/resume.go).
use solstein.Base.{
  ℕ, zero, suc, ◌+◌, ◌/◌, ◌%◌, ◌≤◌, ◌≡◌, refl, ap, ◌∙◌, inl, inr, false, some, List, [], ◌∷◌, ◌++◌,
  ◌==◌, ltb, pos, All, Bool-cases, arith, le→leb, All-append,
}
use solstein.Episodes.ContentRange.{
  cut, parse_digits, max_int64, parse_unsigned, parse_int, positive, parse_content_range,
  print_from, print_int, print_content_range,
}

abbrev IsDigit : ℕ → Type 0
IsDigit c = (b'0' ≤ c) × (c ≤ b'9')

-- The separator is no digit and not the one that is cut at.
cut-append :
    (sep : ℕ) (xs ys : List ℕ)
    → All (λ c. (c == sep) ≡ false) xs
    → cut sep (xs ++ sep ∷ ys) ≡ some (xs, ys)
unfolding cut
cut-append sep [] ys apart = ground arith
cut-append sep (x ∷ xs) ys (other, apart) = rw (other, cut-append sep xs ys apart) refl

print_from-IsDigit :
    (fuel n : ℕ) (out : List ℕ) → All IsDigit out → All IsDigit (print_from fuel n out)
unfolding print_from
print_from-IsDigit zero n out all = ((omega arith, omega arith), all)
print_from-IsDigit (suc fuel) n out all = elim (Bool-cases (ltb n 10)) [
  | inl small ↦ rw small ((omega arith, ground (arith, small)), all)
  | inr big ↦
      rw big
        (print_from-IsDigit fuel (n / 10) ((b'0' + n % 10) ∷ out) ((omega arith, omega arith), all))
]

last_digit :
    (n : ℕ) (out : List ℕ) → parse_digits (n / 10) ((b'0' + n % 10) ∷ out) ≡ parse_digits n out
unfolding parse_digits
last_digit n out = ground arith

parse_digits-print_from :
    (fuel n : ℕ) (out : List ℕ)
    → n ≤ fuel
    → parse_digits 0 (print_from fuel n out) ≡ parse_digits n out
unfolding print_from parse_digits
parse_digits-print_from zero n out le = ground arith
parse_digits-print_from (suc fuel) n out le = elim (Bool-cases (ltb n 10)) [
  | inl small ↦ rw small (ground (arith, small))
  | inr big ↦ rw big (
      parse_digits-print_from fuel (n / 10) ((b'0' + n % 10) ∷ out) (omega arith)
      ∙ last_digit n out)
]

-- One digit at least, so that no sign is read.
print_from-cons :
    (fuel n : ℕ) (out : List ℕ)
    → All IsDigit out
    → (c : ℕ) × (s : List ℕ) × (print_from fuel n out ≡ c ∷ s) × IsDigit c
unfolding print_from
print_from-cons zero n out all = ((b'0' + n % 10), out, refl, (omega arith, omega arith))
print_from-cons (suc fuel) n out all = elim (Bool-cases (ltb n 10)) [
  | inl small ↦ (b'0' + n, out, rw small refl, (omega arith, ground (arith, small)))
  | inr big ↦
      let (c, s, eq, digit) =
        print_from-cons fuel (n / 10) ((b'0' + n % 10) ∷ out) ((omega arith, omega arith), all) in
      (c, s, rw big eq, digit)
]

parse_int-digit :
    (c : ℕ) (s : List ℕ) → IsDigit c → parse_int (c ∷ s) ≡ positive (parse_digits 0 (c ∷ s))
unfolding parse_int parse_unsigned
parse_int-digit c s digit =
    let minus : (c == b'-') ≡ false = ground arith in
    let plus : (c == b'+') ≡ false = ground arith in rw (minus, plus) refl

fits_lem : (n : ℕ) → n ≤ max_int64 → positive (parse_digits n []) ≡ some (pos n)
unfolding parse_digits
fits_lem n fits = rw (le→leb n max_int64 fits) refl

pub parse_int-print_int : (n : ℕ) → n ≤ max_int64 → parse_int (print_int n) ≡ some (pos n)
unfolding print_int
parse_int-print_int n fits =
    let (c, s, eq, digit) = print_from-cons n n [] tt in
    let value = parse_digits-print_from n n [] (omega arith) in
    rw eq (parse_int-digit c s digit ∙ ap positive (rw eq at value) ∙ fits_lem n fits)

slash_lem : (c : ℕ) → IsDigit c → (c == b'/') ≡ false
slash_lem c digit = ground arith

dash_lem : (c : ℕ) → IsDigit c → (c == b'-') ≡ false
dash_lem c digit = ground arith

apart_lem :
    (sep : ℕ) (xs : List ℕ)
    → ((c : ℕ) → IsDigit c → (c == sep) ≡ false)
    → All IsDigit xs
    → All (λ c. (c == sep) ≡ false) xs
apart_lem sep [] h all = tt
apart_lem sep (x ∷ xs) h (digit, all) = (h x digit, apart_lem sep xs h all)

print_int-IsDigit : (n : ℕ) → All IsDigit (print_int n)
unfolding print_int
print_int-IsDigit n = print_from-IsDigit n n [] tt

cut_total :
    (xs ys zs : List ℕ)
    → All IsDigit xs
    → All IsDigit ys
    → cut b'/' (xs ++ b'-' ∷ ys ++ b'/' ∷ zs) ≡ some (xs ++ b'-' ∷ ys, zs)
cut_total xs ys zs digits digits' =
    let no_slash = λ (c : ℕ) (digit : IsDigit c). slash_lem c digit in
    cut-append b'/' (xs ++ b'-' ∷ ys) zs (
      All-append (λ c. (c == b'/') ≡ false) xs (b'-' ∷ ys) (apart_lem b'/' xs no_slash digits)
        (refl, apart_lem b'/' ys no_slash digits'))

cut_start : (xs ys : List ℕ) → All IsDigit xs → cut b'-' (xs ++ b'-' ∷ ys) ≡ some (xs, ys)
cut_start xs ys digits =
    cut-append b'-' xs ys (apart_lem b'-' xs (λ c digit. dash_lem c digit) digits)

-- The start and the total are read back, whatever the end is, where both fit in 63 bits.
pub parse_content_range-print :
    (start end total : ℕ)
    → start ≤ max_int64
    → total ≤ max_int64
    → parse_content_range (print_content_range start end total) ≡ some (pos start, pos total)
unfolding parse_content_range print_content_range
parse_content_range-print start end total fits fits' =
    rw
      (
        cut_total (print_int start) (print_int end) (print_int total) (print_int-IsDigit start)
            (print_int-IsDigit end),
        cut_start (print_int start) (print_int end) (print_int-IsDigit start),
        parse_int-print_int start fits,
        parse_int-print_int total fits',
        parse_content_range,
        print_content_range,
      )
      refl
