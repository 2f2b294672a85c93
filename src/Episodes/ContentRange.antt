-- ===== src/Episodes/ContentRange.antt =====
-- The header that says which part of a file an answer holds (episodes/resume.go, parseContentRange),
-- and Go's reading and printing of decimals that it relies on (strconv.ParseInt, FormatInt). A header
-- is the list of its bytes.
pub mod RoundTrip
use solstein.Base.{
  ℕ, zero, suc, ◌+◌, ◌-◌, ◌*◌, ◌/◌, ◌%◌, ◌^◌, Bool, true, false, ◌||◌, Option, none, some, List, [],
  ◌∷◌, ◌++◌, ◌==◌, ltb, leb, if◌then◌else◌, ℤ, pos, negsuc,
}

-- strings.CutPrefix
unfoldable pub cut_prefix : List ℕ → List ℕ → Option (List ℕ)
cut_prefix [] s = some s
cut_prefix (p ∷ ps) [] = none
cut_prefix (p ∷ ps) (c ∷ s) = let rest = cut_prefix ps s in if p == c then rest else none

-- strings.Cut, around the first of a byte
unfoldable pub cut : ℕ → List ℕ → Option (List ℕ × List ℕ)
cut sep [] = none
cut sep (c ∷ s) =
    let rest = cut sep s in
    if c == sep
    then some ([], s)
    else elim rest [ none ↦ none | some (before, after) ↦ some (c ∷ before, after) ]

unfoldable pub parse_digits : ℕ → List ℕ → Option ℕ
parse_digits n [] = some n
parse_digits n (c ∷ s) =
    let rest = parse_digits (n * 10 + (c - b'0')) s in
    if ltb c b'0' || ltb b'9' c then none else rest

abbrev pub max_int64 : ℕ
max_int64 = 2 ^ 63 - 1

-- Without a sign, at least one digit.
unfoldable pub parse_unsigned : List ℕ → Option ℕ
unfolding parse_digits
parse_unsigned [] = none
parse_unsigned (c ∷ s) = parse_digits 0 (c ∷ s)

abbrev pub positive : Option ℕ → Option ℤ
positive none = none
positive (some n) = if leb n max_int64 then some (pos n) else none

abbrev pub negative : Option ℕ → Option ℤ
negative none = none
negative (some zero) = some (pos 0)
negative (some (suc n)) = if leb n max_int64 then some (negsuc n) else none

unfoldable pub parse_int : List ℕ → Option ℤ
unfolding parse_unsigned
parse_int [] = none
parse_int (c ∷ s) =
    if c == b'-'
    then negative (parse_unsigned s)
    else if c == b'+'
    then positive (parse_unsigned s)
    else positive (parse_unsigned (c ∷ s))

abbrev pub bytes_unit : List ℕ
bytes_unit = b'b' ∷ b'y' ∷ b't' ∷ b'e' ∷ b's' ∷ b' ' ∷ []

-- "bytes start-end/total": the start and the total.
unfoldable pub parse_content_range : List ℕ → Option (ℤ × ℤ)
unfolding cut_prefix
parse_content_range value = elim (cut_prefix bytes_unit value) [
  | none ↦ none
  | some spec ↦ elim (cut b'/' spec) [
    | none ↦ none
    | some (span, size) ↦ elim (cut b'-' span) [
      | none ↦ none
      | some (first, last) ↦ elim (parse_int first) [
        | none ↦ none
        | some start ↦ elim (parse_int size) [ none ↦ none | some total ↦ some (start, total) ]
      ]
    ]
  ]
]

-- The digits of a number in front of others; the fuel bounds the number.
unfoldable pub print_from : ℕ → ℕ → List ℕ → List ℕ
print_from zero n out = (b'0' + n % 10) ∷ out
print_from (suc fuel) n out =
    let rest = print_from fuel (n / 10) ((b'0' + n % 10) ∷ out) in
    if ltb n 10 then (b'0' + n) ∷ out else rest

unfoldable pub print_int : ℕ → List ℕ
unfolding print_from
print_int n = print_from n n []

-- The answer of a source that sends a part of a file.
unfoldable pub print_content_range : ℕ → ℕ → ℕ → List ℕ
print_content_range start end total =
    bytes_unit ++ print_int start ++ b'-' ∷ print_int end ++ b'/' ∷ print_int total
