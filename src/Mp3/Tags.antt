-- ===== src/Mp3/Tags.antt =====
-- The tags around the audio (mp3/mp3.go): the ID3v2 tags at the start, the ID3v1 tag at the end.
use solstein.Base.{
  ℕ, suc, ◌+◌, ◌-◌, ◌*◌, ◌^◌, bit_and, bit_or, Bool, not, ◌&&◌, Option, List, [], ◌∷◌, ◌==◌, ltb,
  leb, if◌then◌else◌, length, get_or, slice, bytes_equal, Round, more, stop, iterate,
}

abbrev id3_tag : List ℕ
id3_tag = b'I' ∷ b'D' ∷ b'3' ∷ []

abbrev tag_tag : List ℕ
tag_tag = b'T' ∷ b'A' ∷ b'G' ∷ []

-- The syncsafe size in the tag's bytes 6 to 9, with its header and footer.
abbrev tag_size : List ℕ → ℕ → ℕ
tag_size bytes position =
    let r0 = get_or bytes (position + 6) 0 in
    let r1 = get_or bytes (position + 7) 0 in
    let r2 = get_or bytes (position + 8) 0 in
    let r3 = get_or bytes (position + 9) 0 in
    let body = bit_or (bit_or (bit_or (r0 * 2 ^ 21) (r1 * 2 ^ 14)) (r2 * 2 ^ 7)) r3 in
    if bit_and (get_or bytes (position + 5) 0) 0x10 == 0 then 10 + body else 10 + body + 10

abbrev is_syncsafe : List ℕ → ℕ → Bool
is_syncsafe bytes position =
    ltb
      (bit_or
        (bit_or (bit_or (get_or bytes (position + 6) 0) (get_or bytes (position + 7) 0))
          (get_or bytes (position + 8) 0))
        (get_or bytes (position + 9) 0))
      0x80

-- One round of the loop over consecutive tags: the position after the tag there.
unfoldable pub next_tag : List ℕ → ℕ → Round ℕ
next_tag bytes position =
    if not (
      leb 10 (length bytes - position) && bytes_equal (slice bytes position (position + 3)) id3_tag)
    then stop position
    else if not (is_syncsafe bytes position)
    then stop position
    else if ltb (length bytes) (position + tag_size bytes position)
    then stop position
    else more (position + tag_size bytes position)

-- Each tag is at least 10 bytes, so the length of the data is fuel enough.
unfoldable pub id3v2_length : List ℕ → Option ℕ
unfolding next_tag iterate
id3v2_length bytes = iterate (next_tag bytes) (suc (length bytes)) 0

-- Where the audio ends: before an ID3v1 tag, if there is one.
unfoldable pub has_id3v1 : List ℕ → ℕ → Bool
has_id3v1 bytes position =
    leb 128 (length bytes - position)
    && bytes_equal (slice bytes (length bytes - 128) (length bytes - 125)) tag_tag
