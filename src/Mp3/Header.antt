-- ===== src/Mp3/Header.antt =====
-- Frame headers (mp3/mp3.go): the four bytes, and what they say of the frame's size and length.
-- `x >> k` is `x / 2 ^ k`, and `& 3` is `% 4`; a byte shifted by 4 is below 16.
pub mod Ranges
use solstein.Base.{
  ℕ, ◌+◌, ◌-◌, ◌*◌, ◌/◌, ◌%◌, ◌^◌, bit_and, Bool, true, false, not, ◌&&◌, ◌||◌, Option, none, some,
  List, [], ◌∷◌, ◌==◌, if◌then◌else◌, get_or,
}

pub data Version : Type 0 where
  mpeg1 mpeg2 mpeg25 : Version

pub record Header : Type 0 where
  pub version : Version
  pub layer : ℕ
  pub bitrate : ℕ  -- kbit/s
  pub sample_rate : ℕ  -- Hz
  pub padding : Bool
  pub protected : Bool
  pub mono : Bool

-- The rows of the tables by layer; the source's row 0 is empty.
abbrev bitrates_mpeg1 : ℕ → List ℕ
bitrates_mpeg1 layer =
    if layer == 1
    then (0 ∷ 32 ∷ 64 ∷ 96 ∷ 128 ∷ 160 ∷ 192 ∷ 224 ∷ 256 ∷ 288 ∷ 320 ∷ 352 ∷ 384 ∷ 416 ∷ 448 ∷ [])
    else if layer == 2
    then (0 ∷ 32 ∷ 48 ∷ 56 ∷ 64 ∷ 80 ∷ 96 ∷ 112 ∷ 128 ∷ 160 ∷ 192 ∷ 224 ∷ 256 ∷ 320 ∷ 384 ∷ [])
    else (0 ∷ 32 ∷ 40 ∷ 48 ∷ 56 ∷ 64 ∷ 80 ∷ 96 ∷ 112 ∷ 128 ∷ 160 ∷ 192 ∷ 224 ∷ 256 ∷ 320 ∷ [])

abbrev bitrates_mpeg2 : ℕ → List ℕ
bitrates_mpeg2 layer =
    if layer == 1
    then (0 ∷ 32 ∷ 48 ∷ 56 ∷ 64 ∷ 80 ∷ 96 ∷ 112 ∷ 128 ∷ 144 ∷ 160 ∷ 176 ∷ 192 ∷ 224 ∷ 256 ∷ [])
    else (0 ∷ 8 ∷ 16 ∷ 24 ∷ 32 ∷ 40 ∷ 48 ∷ 56 ∷ 64 ∷ 80 ∷ 96 ∷ 112 ∷ 128 ∷ 144 ∷ 160 ∷ [])

abbrev sample_rates : Version → List ℕ
sample_rates mpeg1 = 44100 ∷ 48000 ∷ 32000 ∷ []
sample_rates mpeg2 = 22050 ∷ 24000 ∷ 16000 ∷ []
sample_rates mpeg25 = 11025 ∷ 12000 ∷ 8000 ∷ []

abbrev bitrate_of : Version → ℕ → ℕ → ℕ
bitrate_of mpeg1 layer index = get_or (bitrates_mpeg1 layer) index 0
bitrate_of _ layer index = get_or (bitrates_mpeg2 layer) index 0

-- The switch on the version bits; `none` is reserved.
abbrev version_of : ℕ → Option Version
version_of bits =
    if bits == 0
    then some mpeg25
    else if bits == 2
    then some mpeg2
    else if bits == 3
    then some mpeg1
    else none

-- A header from its fields, once the reserved values are refused.
decode_fields : Version → ℕ → ℕ → ℕ → ℕ → Bool → ℕ → Option Header
decode_fields version layer_bits bitrate_index rate_index pad protected mode =
    if layer_bits == 0
    then none
    else if bitrate_index == 0 || (bitrate_index == 15 || rate_index == 3)
    then none
    else some (record {
      version = version;
      layer = 4 - layer_bits;
      bitrate = bitrate_of version (4 - layer_bits) bitrate_index;
      sample_rate = get_or (sample_rates version) rate_index 0;
      padding = pad == 1;
      protected = protected;
      mono = mode == 3;
    })

decode_bytes : ℕ → ℕ → ℕ → ℕ → Option Header
decode_bytes b0 b1 b2 b3 =
    if not (b0 == 0xff) || not (bit_and b1 0xe0 == 0xe0)
    then none
    else elim (version_of (b1 / 2 ^ 3 % 4)) [
      | none ↦ none
      | some version ↦
          decode_fields version (b1 / 2 % 4) (b2 / 2 ^ 4 % 16) (b2 / 2 ^ 2 % 4) (b2 / 2 % 2)
            (bit_and b1 1 == 0) (b3 / 2 ^ 6)
    ]

-- The bytes from a position on; a header wants four.
unfoldable pub parse_header : List ℕ → Option Header
unfolding decode_bytes decode_fields
parse_header (b0 ∷ b1 ∷ b2 ∷ b3 ∷ _) = decode_bytes b0 b1 b2 b3
parse_header _ = none

abbrev pub is_mpeg1 : Version → Bool
is_mpeg1 mpeg1 = true
is_mpeg1 _ = false

abbrev pub version_eq : Version → Version → Bool
version_eq mpeg1 mpeg1 = true
version_eq mpeg2 mpeg2 = true
version_eq mpeg25 mpeg25 = true
version_eq _ _ = false

-- The whole frame's length in bytes.
unfoldable pub size : Header → ℕ
size header =
    let padding : ℕ = if header.padding then 1 else 0 in
    let bits_per_second : ℕ = header.bitrate * 1000 in
    if header.layer == 1
    then (12 * bits_per_second / header.sample_rate + padding) * 4
    else if header.layer == 3 && not (is_mpeg1 header.version)
    then 72 * bits_per_second / header.sample_rate + padding
    else 144 * bits_per_second / header.sample_rate + padding

unfoldable pub samples : Header → ℕ
samples header =
    if header.layer == 1
    then 384
    else if header.layer == 3 && not (is_mpeg1 header.version)
    then 576
    else 1152

-- Nanoseconds, as time.Duration counts.
unfoldable pub duration : Header → ℕ
unfolding samples
duration header = samples header * 1000000000 / header.sample_rate

unfoldable pub side_info_size : Header → ℕ
side_info_size header =
    if is_mpeg1 header.version && header.mono
    then 17
    else if is_mpeg1 header.version
    then 32
    else if header.mono
    then 9
    else 17

unfoldable pub main_data_offset : Header → ℕ
unfolding side_info_size
main_data_offset header =
    let offset = 4 + side_info_size header in if header.protected then offset + 2 else offset

unfoldable pub same_stream : Header → Header → Bool
same_stream a b =
    version_eq a.version b.version && (a.layer == b.layer && a.sample_rate == b.sample_rate)
