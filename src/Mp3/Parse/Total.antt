-- ===== src/Mp3/Parse/Total.antt =====
-- The fuel of the reader's loops (mp3/mp3.go, Parse).
use solstein.Base.{
  ℕ, suc, ◌+◌, ◌-◌, ◌≤◌, ◌<◌, ◌≡◌, inl, inr, some, List, length, more, stop, iterate_inv,
  iterate_total, arith,
}
use solstein.Mp3.Header.Ranges.{parse_header-IsDecoded}
use solstein.Mp3.Tags.{next_tag, id3v2_length}
use solstein.Mp3.Parse.{
  Scan, start_scan, audio_end, take_frame, scan_round, scan, Parsed, finish, parse,
}
use solstein.Mp3.Parse.Rounds.{Step, scan_round-Step}

next_tag-more :
    (bytes : List ℕ) (p q : ℕ)
    → next_tag bytes p ≡ more q
    → (q ≤ length bytes) × (length bytes - q < length bytes - p)
unfolding next_tag
next_tag-more bytes p q e = ground arith

next_tag-stop : (bytes : List ℕ) (p q : ℕ) → next_tag bytes p ≡ stop q → q ≡ p
unfolding next_tag
next_tag-stop bytes p q e = ground arith

id3v2_length_total : (bytes : List ℕ) → (p : ℕ) × (id3v2_length bytes ≡ some p)
unfolding id3v2_length
id3v2_length_total bytes =
    iterate_total (λ p. p ≤ length bytes) (λ p. length bytes - p) (next_tag bytes)
      (λ p q h e. next_tag-more bytes p q e) (suc (length bytes)) 0 (omega arith) (omega arith)

-- The tags lie inside the data.
pub id3v2_length-le : (bytes : List ℕ) {p : ℕ} → id3v2_length bytes ≡ some p → p ≤ length bytes
unfolding id3v2_length
id3v2_length-le bytes {p} e =
    iterate_inv (λ p. p ≤ length bytes) (λ p. p ≤ length bytes) (next_tag bytes)
      (λ p q h e. (next_tag-more bytes p q e).0)
      (λ p q h e. omega (arith, next_tag-stop bytes p q e)) (suc (length bytes)) 0 p (omega arith) e

Step-lower :
    (bytes : List ℕ) (end : ℕ) (s s' : Scan)
    → s.position + 4 ≤ end
    → Step bytes end s s'
    → end - s'.position < end - s.position
unfolding take_frame
Step-lower bytes end s s' room (inl (b, e)) = ground arith
Step-lower bytes end s s' room (inr (h, parsed, ok, fits, e)) =
    let decoded = parse_header-IsDecoded _ parsed in ground (arith, decoded.size_pos)

pub audio_end-le : (bytes : List ℕ) (position : ℕ) → audio_end bytes position ≤ length bytes
audio_end-le bytes position = ground arith

scan_total : (bytes : List ℕ) (position : ℕ) → (s : Scan) × (scan bytes position ≡ some s)
unfolding scan
scan_total bytes position =
    iterate_total (λ s. Unit {0}) (λ s. audio_end bytes position - s.position)
      (scan_round bytes (audio_end bytes position))
      (λ s s' _ e.
        let (room, step) = scan_round-Step bytes _ s s' e in
        (tt, Step-lower bytes (audio_end bytes position) s s' room step))
      (suc (length bytes)) (start_scan position) tt (omega (arith, audio_end-le bytes position))

-- Reading ends on every input: with a file, or with the error that it holds no audio.
pub parse_total : (bytes : List ℕ) → (r : Parsed) × (parse bytes ≡ some r)
unfolding parse
parse_total bytes =
    let (position, e) = id3v2_length_total bytes in
    let (s, e') = scan_total bytes position in (finish bytes position s, rw (e, e', parse))
