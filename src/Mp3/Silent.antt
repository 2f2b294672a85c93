-- ===== src/Mp3/Silent.antt =====
-- Silent frames (mp3/mp3.go, SilentFrame and crc16): a frame with its side information cleared,
-- put in place of a removed frame so that its bytes stay in the bit reservoir.
pub mod Laws
use solstein.Base.{
  ℕ, zero, suc, ◌+◌, ◌-◌, ◌*◌, ◌/◌, ◌%◌, ◌^◌, min, bit_xor, Bool, ◌&&◌, List, [], ◌∷◌, ◌++◌, ◌==◌,
  leb, if◌then◌else◌, length, set, slice, take, drop, replicate,
}
use solstein.Mp3.Header.{Header, side_info_size}
use solstein.Mp3.Frame.{Frame, File, frame_bytes}

-- One round of the CRC over a bit of a byte, on a uint16.
crc_bit : ℕ → ℕ → ℕ
crc_bit crc input =
    let top = crc / 2 ^ 15 in
    let shifted = crc * 2 % 2 ^ 16 in
    if bit_xor top input == 1 then bit_xor shifted 0x8005 else shifted

-- The bits of a byte from bit `n - 1` down to bit 0.
crc_byte : ℕ → ℕ → ℕ → ℕ
unfolding crc_bit
crc_byte zero value crc = crc
crc_byte (suc bit) value crc = crc_byte bit value (crc_bit crc (value / 2 ^ bit % 2))

crc_from : ℕ → List ℕ → ℕ
unfolding crc_byte
crc_from crc [] = crc
crc_from crc (value ∷ values) = crc_from (crc_byte 8 value crc) values

unfoldable pub crc16 : List ℕ → ℕ
unfolding crc_from
crc16 bytes = crc_from 0xffff bytes

-- Go's `clear(xs[from:to])`, within bounds.
clear : ℕ → ℕ → List ℕ → List ℕ
clear from to xs = take from xs ++ (replicate (to - from) 0 ++ drop to xs)

abbrev pub side_info_start : Header → ℕ
side_info_start header = if header.protected then 4 + 2 else 4

-- The CRC over the header's last two bytes and the side information, written behind the header.
write_crc : ℕ → ℕ → List ℕ → List ℕ
write_crc side_info end silent =
    let crc = crc16 (slice silent 2 4 ++ slice silent side_info end) in
    set (set silent 4 (crc / 2 ^ 8 % 2 ^ 8)) 5 (crc % 2 ^ 8)

-- SilentFrame on the frame's bytes.
unfoldable pub silence : Header → List ℕ → List ℕ
unfolding clear write_crc
silence header bytes =
    let side_info = side_info_start header in
    let end = min (side_info + side_info_size header) (length bytes) in
    let silent = clear side_info end bytes in
    if header.protected && leb end (length silent) then write_crc side_info end silent else silent

unfoldable pub silent_frame : File → Frame → List ℕ
unfolding silence
silent_frame file frame = silence frame.header (frame_bytes file frame)
