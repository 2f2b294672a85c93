-- ===== src/Mp3/Header/Ranges.antt =====
-- What a decoded header holds (mp3/mp3.go, ParseHeader and Header.Size).
use solstein.Base.{
  ℕ, ◌-◌, ◌*◌, ◌/◌, ◌%◌, ◌^◌, ◌≤◌, ◌<◌, ◌≡◌, refl, inl, inr, Bool, true, not, ◌&&◌, ◌||◌, some,
  List, [], ◌∷◌, ◌==◌, leb, if◌then◌else◌, get_or, holds_below, bit_and, length, below_holds,
  Bool-cases, Option-cases, arith,
}
use solstein.Mp3.Header.{
  Version, mpeg1, mpeg2, mpeg25, Header, bitrate_of, sample_rates, version_of, decode_fields,
  decode_bytes, parse_header, is_mpeg1, size,
}

-- The fields are in the tables' ranges, and so is the frame's size.
pub record IsDecoded (header : Header) : Type 0 where
  pub layer_pos : 1 ≤ header.layer
  pub layer_le : header.layer ≤ 3
  pub bitrate_pos : 8 ≤ header.bitrate
  pub bitrate_le : header.bitrate ≤ 448
  pub rate_pos : 8000 ≤ header.sample_rate
  pub rate_le : header.sample_rate ≤ 48000
  pub size_pos : 24 ≤ size header
  pub size_le : size header ≤ 2881

-- `size` less its padding, from the table's entries.
abbrev unpadded : Version → ℕ → ℕ → ℕ → ℕ
unpadded version layer bitrate rate =
    if layer == 1
    then 12 * (bitrate * 1000) / rate * 4
    else if layer == 3 && not (is_mpeg1 version)
    then 72 * (bitrate * 1000) / rate
    else 144 * (bitrate * 1000) / rate

abbrev within : ℕ → ℕ → ℕ → Bool
within low x high = leb low x && leb x high

abbrev entry_ok : Version → ℕ → ℕ → ℕ → Bool
entry_ok version layer_bits index rate_index =
    let layer = 4 - layer_bits in
    let bitrate = bitrate_of version layer index in
    let rate = get_or (sample_rates version) rate_index 0 in
    (layer_bits == 0 || (index == 0 || (index == 15 || rate_index == 3)))
    || (within 8 bitrate 448
        && (within 8000 rate 48000 && within 24 (unpadded version layer bitrate rate) 2880))

abbrev table_ok : Version → Bool
table_ok version =
    holds_below
      (λ layer_bits.
        holds_below
          (λ index. holds_below (λ rate_index. entry_ok version layer_bits index rate_index) 4) 16)
      4

table_checked : (version : Version) → table_ok version ≡ true
unfolding holds_below
table_checked mpeg1 = refl
table_checked mpeg2 = refl
table_checked mpeg25 = refl

entry_checked :
    (version : Version) (l i r : ℕ) → l < 4 → i < 16 → r < 4 → entry_ok version l i r ≡ true
entry_checked version l i r hl hi hr =
    let rates = λ (l i : ℕ). holds_below (λ r. entry_ok version l i r) 4 in
    let indices = λ (l : ℕ). holds_below (λ i. rates l i) 16 in
    let layer = below_holds indices 4 (table_checked version) l hl in
    let index = below_holds (λ i. rates l i) 16 layer i hi in
    below_holds (λ r. entry_ok version l i r) 4 index r hr

decode_fields-IsDecoded :
    (version : Version) (l i r pad mode : ℕ) (protected : Bool) {h : Header}
    → l < 4
    → i < 16
    → r < 4
    → decode_fields version l i r pad protected mode ≡ some h
    → IsDecoded h
unfolding decode_fields size
decode_fields-IsDecoded version l i r pad mode protected hl hi hr e =
    ground (arith, entry_checked version l i r)

decode_bytes-IsDecoded :
    (b0 b1 b2 b3 : ℕ) {h : Header} → decode_bytes b0 b1 b2 b3 ≡ some h → IsDecoded h
unfolding decode_bytes
decode_bytes-IsDecoded b0 b1 b2 b3 {h} e =
    elim (Bool-cases (not (b0 == 0xff) || not (bit_and b1 0xe0 == 0xe0))) [
      | inl refused ↦ absurd (cc (rw (refused, decode_bytes) at e))
      | inr synced ↦ elim (Option-cases (version_of (b1 / 2 ^ 3 % 4))) [
        | inl reserved ↦ absurd (cc (rw (synced, reserved, decode_bytes) at e))
        | inr (version, found) ↦
            decode_fields-IsDecoded version (b1 / 2 % 4) (b2 / 2 ^ 4 % 16) (b2 / 2 ^ 2 % 4)
              (b2 / 2 % 2) (b3 / 2 ^ 6) (bit_and b1 1 == 0) (omega arith) (omega arith)
              (omega arith) (rw (synced, found, decode_bytes) at e)
      ]
    ]

-- A decoded header has its layer, bitrate and sample rate in the tables' ranges, and its frame
-- takes between 24 and 2881 bytes.
pub parse_header-IsDecoded : (raw : List ℕ) {h : Header} → parse_header raw ≡ some h → IsDecoded h
unfolding parse_header
parse_header-IsDecoded [] e = absurd (cc)
parse_header-IsDecoded (_ ∷ []) e = absurd (cc)
parse_header-IsDecoded (_ ∷ _ ∷ []) e = absurd (cc)
parse_header-IsDecoded (_ ∷ _ ∷ _ ∷ []) e = absurd (cc)
parse_header-IsDecoded (b0 ∷ b1 ∷ b2 ∷ b3 ∷ _) e = decode_bytes-IsDecoded b0 b1 b2 b3 e

-- A header needs four bytes.
pub parse_header-length : (raw : List ℕ) {h : Header} → parse_header raw ≡ some h → 4 ≤ length raw
unfolding parse_header
parse_header-length [] e = absurd (cc)
parse_header-length (_ ∷ []) e = absurd (cc)
parse_header-length (_ ∷ _ ∷ []) e = absurd (cc)
parse_header-length (_ ∷ _ ∷ _ ∷ []) e = absurd (cc)
parse_header-length (_ ∷ _ ∷ _ ∷ _ ∷ _) e = omega arith
