-- ===== src/Mp3/Parse/Result.antt =====
-- What `Parse` returns (mp3/mp3.go): where the frames stand, and how the bytes are accounted for.
use solstein.Base.{
  ℕ, suc, ◌+◌, ◌-◌, ◌≤◌, ◌≡◌, ◌≢◌, refl, ap, some-injective, subst, inl, inr, Option, none, some,
  List, [], ◌∷◌, length, length-take, length-drop, take, drop, All, iterate_inv, more, Option-cases,
  arith,
}
use solstein.Mp3.Header.{Header}
use solstein.Mp3.Frame.{Frame, File, frame_bytes}
use solstein.Mp3.Tags.{id3v2_length, has_id3v1}
use solstein.Mp3.Parse.{
  Scan, start_scan, audio_end, scan_round, scan, Parsed, ok, not_mp3, finish, parse,
}
use solstein.Mp3.Parse.Rounds.{Last, scan_round-Step, scan_round-Last}
use solstein.Mp3.Parse.Total.{id3v2_length-le, audio_end-le}
use solstein.Mp3.Parse.Layout.{
  Placed, Streams, InStream, frames_size, info_size, Inv, skip-Inv, take_frame-Inv,
}

ok_file : File → Parsed → File
ok_file d not_mp3 = d
ok_file d (ok file) = file

ok-injective : (a b : File) → ok a ≡ ok b → a ≡ b
unfolding ok_file
ok-injective a b p = ap (ok_file a) p

-- What holds when the loop has ended.
record Ended (bytes : List ℕ) (start end : ℕ) (s : Scan) : Type 0 where
  bound : s.position ≤ end
  account : start + s.skipped + info_size s.info + frames_size s.frames + s.truncated ≡ s.position
  placed : Placed bytes start end s.frames
  streams : InStream s.stream s.info s.frames

widen :
    (bytes : List ℕ) (from to to' : ℕ) (fs : List Frame)
    → to ≤ to'
    → Placed bytes from to fs
    → Placed bytes from to' fs
widen bytes from to to' [] le h = omega arith
widen bytes from to to' (f ∷ fs) le (a, b, c) =
    (a, b, widen bytes (f.offset + f.size) to to' fs le c)

Last-Ended :
    (bytes : List ℕ) (start end : ℕ) (s s' : Scan)
    → Inv bytes start end s
    → Last end s s'
    → Ended bytes start end s'
Last-Ended bytes start end s s' inv (inl (short, e)) = rw e (record {
  bound = inv.bound;
  account = omega (arith, inv.account, inv.whole);
  placed = widen bytes start s.position end s.frames inv.bound inv.placed;
  streams = inv.streams;
})
Last-Ended bytes start end s s' inv (inr (room, e)) = rw e (record {
  bound = omega arith;
  account = omega (arith, inv.account, inv.bound);
  placed = widen bytes start s.position end s.frames inv.bound inv.placed;
  streams = inv.streams;
})

module _ (bytes : List ℕ) (start : ℕ) (fits : start ≤ audio_end bytes start) where
  abbrev end : ℕ
  end = audio_end bytes start

  round-Inv :
      (s s' : Scan)
      → Inv bytes start end s
      → scan_round bytes end s ≡ more s'
      → Inv bytes start end s'
  round-Inv s s' inv e =
      let (room, step) = scan_round-Step bytes end s s' e in
      elim step [
        | inl (b, q) ↦ rw q (skip-Inv bytes start end b s room inv)
        | inr (h, parsed, fit, within, q) ↦
            rw q (take_frame-Inv bytes start end h s parsed fit within inv)
      ]

  scan-Ended : {s : Scan} → scan bytes start ≡ some s → Ended bytes start end s
  unfolding scan
  scan-Ended {s} e =
      iterate_inv (Inv bytes start end) (Ended bytes start end) (scan_round bytes end) round-Inv
        (λ s s' inv q. Last-Ended bytes start end s s' inv (scan_round-Last bytes end s s' q))
        (suc (length bytes)) (start_scan start) s
        (record {
          bound = fits;
          whole = refl;
          account = omega arith;
          placed = omega arith;
          streams = (refl, refl);
        })
        e

-- What a parsed file is: its frames are real frames, in order between the tags, of one stream, and
-- the tags, the frames and what was left out make up the data.
pub record IsParsed (bytes : List ℕ) (file : File) : Type 0 where
  pub whole : file.bytes ≡ bytes
  pub some_frames : file.frames ≢ []
  pub placed : Placed bytes (length file.id3v2) (length bytes - length file.id3v1) file.frames
  pub stream : Header
  pub streams : Streams stream file.frames
  pub account :
      length file.id3v2
        + info_size file.info
        + frames_size file.frames
        + file.skipped
        + file.truncated
        + length file.id3v1
      ≡ length bytes

audio_end_fits : (bytes : List ℕ) (start : ℕ) → start ≤ length bytes → start ≤ audio_end bytes start
unfolding has_id3v1
audio_end_fits bytes start h = ground arith

InStream-Streams :
    (stream : Option Header) (info : Option Frame) (f : Frame) (fs : List Frame)
    → InStream stream info (f ∷ fs)
    → (h : Header) × Streams h (f ∷ fs)
InStream-Streams none info f fs h = absurd (cc (h.1))
InStream-Streams (some stream) info f fs h = (stream, h)

Placed-le : (bytes : List ℕ) (from to : ℕ) (fs : List Frame) → Placed bytes from to fs → from ≤ to
Placed-le bytes from to [] h = h
Placed-le bytes from to (f ∷ fs) (a, is, c) =
    omega (arith, Placed-le bytes (f.offset + f.size) to fs c)

made :
    (bytes : List ℕ) (start : ℕ) (s : Scan) (f : Frame) (fs : List Frame)
    → start ≤ length bytes
    → s.frames ≡ f ∷ fs
    → Ended bytes start (audio_end bytes start) s
    → IsParsed bytes (record {
      bytes = bytes;
      id3v2 = take start bytes;
      info = s.info;
      frames = f ∷ fs;
      id3v1 = drop (audio_end bytes start) bytes;
      skipped = s.skipped + (audio_end bytes start - s.position);
      truncated = s.truncated;
    })
made bytes start s f fs fits e end =
    let tag = length-take start bytes in
    let rest = length-drop (audio_end bytes start) bytes in
    let head : length (take start bytes) ≡ start = omega (arith, tag) in
    let last : length bytes - length (drop (audio_end bytes start) bytes) ≡ audio_end bytes start =
      omega (arith, rest, audio_end-le bytes start) in
    let streams =
      InStream-Streams s.stream s.info f fs
        (subst (λ l. InStream s.stream s.info l) e end.streams) in
    let size =
      subst (λ l. start + s.skipped + info_size s.info + frames_size l + s.truncated ≡ s.position) e
        end.account in
    record {
      whole = refl;
      some_frames = λ p. cc;
      placed =
          rw (head, last) (subst (λ l. Placed bytes start (audio_end bytes start) l) e end.placed);
      stream = streams.0;
      streams = streams.1;
      account = omega (arith, head, rest, audio_end-le bytes start, end.bound, size);
    }

finish-IsParsed :
    (bytes : List ℕ) (start : ℕ) (s : Scan) {file : File} (fs : List Frame)
    → s.frames ≡ fs
    → start ≤ length bytes
    → Ended bytes start (audio_end bytes start) s
    → finish bytes start s ≡ ok file
    → IsParsed bytes file
unfolding finish
finish-IsParsed bytes start s [] e fits ended r = absurd (cc (rw (e, finish) at r))
finish-IsParsed bytes start s (f ∷ fs) e fits ended r =
    subst (IsParsed bytes) (ok-injective _ _ (rw (e, finish) at r))
      (made bytes start s f fs fits e ended)

-- A parsed file's frames decode at their offsets to the headers they carry, stand in order between
-- the tags without overlap, are of one stream, and with the tags, the info frame, the skipped bytes
-- and the cut-off frame they add up to the data.
pub parse-IsParsed :
    (bytes : List ℕ) {file : File} → parse bytes ≡ some (ok file) → IsParsed bytes file
unfolding parse
parse-IsParsed bytes {file} e = elim (Option-cases (id3v2_length bytes)) [
  | inl out ↦ absurd (cc (rw (out, parse) at e))
  | inr (start, e1) ↦ elim (Option-cases (scan bytes start)) [
    | inl out ↦ absurd (cc (rw (e1, out, parse) at e))
    | inr (s, e2) ↦
        let fits = id3v2_length-le bytes e1 in
        finish-IsParsed bytes start s s.frames refl fits
          (scan-Ended bytes start (audio_end_fits bytes start fits) e2)
          (some-injective _ _ (rw (e1, e2, parse) at e))
  ]
]

frames_within :
    (bytes : List ℕ) (file : File) (from to : ℕ) (fs : List Frame)
    → file.bytes ≡ bytes
    → to ≤ length bytes
    → Placed bytes from to fs
    → All (λ f. length (frame_bytes file f) ≡ f.size) fs
unfolding frame_bytes
frames_within bytes file from to [] w le h = tt
frames_within bytes file from to (f ∷ fs) w le (a, is, c) =
    let inside = Placed-le bytes (f.offset + f.size) to fs c in
    let same = ap (λ (l : List ℕ). length l) w in
    let dropped = length-drop f.offset file.bytes in
    let taken = length-take (f.offset + f.size - f.offset) (drop f.offset file.bytes) in
    (omega arith, frames_within bytes file (f.offset + f.size) to fs w le c)

-- In a parsed file, the bytes of each frame are as many as its size says: no slice is cut short.
pub length-frame_bytes :
    (bytes : List ℕ) {file : File}
    → parse bytes ≡ some (ok file)
    → All (λ f. length (frame_bytes file f) ≡ f.size) file.frames
length-frame_bytes bytes {file} e =
    let p = parse-IsParsed bytes e in
    frames_within bytes file (length file.id3v2) (length bytes - length file.id3v1) file.frames
      p.whole (omega arith) p.placed
