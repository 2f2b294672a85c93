-- ===== src/Auth/Totp.antt =====
-- Codes for sign-in (auth/totp.go). HMAC-SHA1 and the key that a secret holds (base32, in any case of
-- letters) are parameters; a code is the list of its runes. Times are nanoseconds since 1970, so a
-- step is not negative, and one step before the first is the first here: neither comes after a last
-- step. The counter's 8 bytes hold a step below 2 ^ 64.
pub mod Match
use Prim.Native.String.{String}
use solstein.Base.{
  ℕ, zero, suc, ◌+◌, ◌-◌, ◌*◌, ◌/◌, ◌%◌, ◌^◌, Bool, true, false, not, ◌&&◌, ◌||◌, Option, none,
  some, List, [], ◌∷◌, ◌++◌, ◌==◌, ltb, leb, if◌then◌else◌, length, get_or, bytes_equal,
}

abbrev pub totp_digits : ℕ
totp_digits = 6

abbrev pub totp_period : ℕ
totp_period = 30

abbrev pub totp_skew : ℕ
totp_skew = 1

abbrev second : ℕ
second = 1000000000

abbrev pub totp_step : ℕ → ℕ
totp_step at = at / second / totp_period

-- binary.BigEndian.PutUint64
abbrev pub big_endian : ℕ → ℕ → List ℕ
big_endian zero n = []
big_endian (suc k) n = n / 2 ^ (8 * k) % 2 ^ 8 ∷ big_endian k n

-- binary.BigEndian.Uint32, from an offset
abbrev pub uint32_at : List ℕ → ℕ → ℕ
uint32_at bytes i =
    get_or bytes i 0 * 2 ^ 24
    + get_or bytes (i + 1) 0 * 2 ^ 16
    + get_or bytes (i + 2) 0 * 2 ^ 8
    + get_or bytes (i + 3) 0

unfoldable pub modulus : ℕ → ℕ
modulus zero = 1
modulus (suc digits) = modulus digits * 10 % 2 ^ 32

-- "%0*d" of a number with no more digits than asked for
abbrev pub padded : ℕ → ℕ → List ℕ
padded zero n = []
padded (suc width) n = padded width (n / 10) ++ (b'0' + n % 10) ∷ []

-- unicode.IsSpace
abbrev pub is_space : ℕ → Bool
is_space c =
    (leb 9 c && leb c 13)
    || c == 32
    || c == 133
    || c == 160
    || c == 5760
    || (leb 8192 c && leb c 8202)
    || c == 8232
    || c == 8233
    || c == 8239
    || c == 8287
    || c == 12288

-- strings.Join of strings.Fields
unfoldable pub without_spaces : List ℕ → List ℕ
without_spaces [] = []
without_spaces (c ∷ code) = let rest = without_spaces code in if is_space c then rest else c ∷ rest

-- How many bytes a rune takes in UTF-8.
abbrev pub rune_length : ℕ → ℕ
rune_length c = if ltb c 128 then 1 else if ltb c 2048 then 2 else if ltb c 65536 then 3 else 4

abbrev pub byte_length : List ℕ → ℕ
byte_length [] = 0
byte_length (c ∷ code) = rune_length c + byte_length code

module _ (hmac : List ℕ → List ℕ → List ℕ) where
  unfoldable pub totp_code : List ℕ → ℕ → ℕ → List ℕ
  unfolding modulus
  totp_code key step digits =
      let sum = hmac key (big_endian 8 step) in
      let offset = get_or sum (length sum - 1) 0 % 16 in
      let value = uint32_at sum offset % 2 ^ 31 in padded digits (value % modulus digits)

  -- The first candidate, of those after the last step, whose code is the one given.
  unfoldable pub match_candidates : List ℕ → List ℕ → ℕ → List ℕ → Option ℕ
  match_candidates key code last_step [] = none
  match_candidates key code last_step (candidate ∷ candidates) =
      let rest = match_candidates key code last_step candidates in
      if leb candidate last_step
      then rest
      else if bytes_equal (totp_code key candidate totp_digits) code
      then some candidate
      else rest

  unfoldable pub match_key : List ℕ → ℕ → ℕ → Option (List ℕ) → Option ℕ
  unfolding match_candidates without_spaces
  match_key code now last_step none = none
  match_key code now last_step (some key) =
      let code = without_spaces code in
      let current = totp_step now in
      let found =
        match_candidates key code last_step
          ((current - totp_skew) ∷ current ∷ (current + totp_skew) ∷ []) in
      if not (byte_length code == totp_digits) then none else found

  unfoldable pub match_totp : (String → Option (List ℕ)) → String → List ℕ → ℕ → ℕ → Option ℕ
  unfolding match_key
  match_totp key_of secret code now last_step = match_key code now last_step (key_of secret)
