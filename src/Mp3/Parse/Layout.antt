-- ===== src/Mp3/Parse/Layout.antt =====
-- Where the frames of a parsed file stand, and how the bytes are accounted for (mp3/mp3.go, Parse).
use solstein.Base.{
  ℕ, ◌+◌, ◌≤◌, ◌≡◌, refl, sym, subst, ◌⊎◌, inl, inr, Bool, true, Option, none, some, List, [], ◌∷◌,
  ◌++◌, slice, drop, Bool-cases, Option-cases, arith,
}
use solstein.Mp3.Header.{Header, parse_header, size, same_stream}
use solstein.Mp3.Frame.{Frame, is_info_frame}
use solstein.Mp3.Parse.{Scan, accepted, frame_at, take_frame}
use solstein.Mp3.Parse.Rounds.{skip}

-- A frame that the data really holds: its header decodes there, and gives its size.
abbrev pub IsFrame : List ℕ → Frame → Type 0
IsFrame bytes f = (parse_header (drop f.offset bytes) ≡ some f.header) × (f.size ≡ size f.header)

-- Frames in order between two positions, none over another.
abbrev pub Placed : List ℕ → ℕ → ℕ → List Frame → Type 0
Placed bytes from to [] = from ≤ to
Placed bytes from to (f ∷ fs) =
    (from ≤ f.offset) × IsFrame bytes f × Placed bytes (f.offset + f.size) to fs

abbrev pub Streams : Header → List Frame → Type 0
Streams stream [] = Unit
Streams stream (f ∷ fs) = (same_stream f.header stream ≡ true) × Streams stream fs

abbrev pub frames_size : List Frame → ℕ
frames_size [] = 0
frames_size (f ∷ fs) = f.size + frames_size fs

abbrev pub info_size : Option Frame → ℕ
info_size none = 0
info_size (some f) = f.size

Placed-widen :
    (bytes : List ℕ) (from to to' : ℕ) (fs : List Frame)
    → to ≤ to'
    → Placed bytes from to fs
    → Placed bytes from to' fs
Placed-widen bytes from to to' [] le h = omega arith
Placed-widen bytes from to to' (f ∷ fs) le (a, b, c) =
    (a, b, Placed-widen bytes (f.offset + f.size) to to' fs le c)

Placed-snoc :
    (bytes : List ℕ) (from to : ℕ) (fs : List Frame) (g : Frame)
    → Placed bytes from g.offset fs
    → IsFrame bytes g
    → g.offset + g.size ≤ to
    → Placed bytes from to (fs ++ g ∷ [])
Placed-snoc bytes from to [] g h is le = (h, is, le)
Placed-snoc bytes from to (f ∷ fs) g (a, b, c) is le =
    (a, b, Placed-snoc bytes (f.offset + f.size) to fs g c is le)

Streams-snoc :
    (stream : Header) (fs : List Frame) (g : Frame)
    → Streams stream fs
    → same_stream g.header stream ≡ true
    → Streams stream (fs ++ g ∷ [])
Streams-snoc stream [] g h e = (e, tt)
Streams-snoc stream (f ∷ fs) g (a, b) e = (a, Streams-snoc stream fs g b e)

frames_size-snoc :
    (fs : List Frame) (g : Frame) → frames_size (fs ++ g ∷ []) ≡ frames_size fs + g.size
frames_size-snoc [] g = omega arith
frames_size-snoc (f ∷ fs) g = omega (arith, frames_size-snoc fs g)

same_stream_refl : (h : Header) → same_stream h h ≡ true
unfolding same_stream
same_stream_refl h = ground arith

-- All of `fs` are of the stream found, if one is.
abbrev pub InStream : Option Header → Option Frame → List Frame → Type 0
InStream none info fs = (info ≡ none) × (fs ≡ [])
InStream (some stream) info fs = Streams stream fs

-- What holds between two rounds that began at `start`.
pub record Inv (bytes : List ℕ) (start end : ℕ) (s : Scan) : Type 0 where
  pub bound : s.position ≤ end
  pub whole : s.truncated ≡ 0
  pub account : start + s.skipped + info_size s.info + frames_size s.frames ≡ s.position
  pub placed : Placed bytes start s.position s.frames
  pub streams : InStream s.stream s.info s.frames

pub skip-Inv :
    (bytes : List ℕ) (start end : ℕ) (b : Bool) (s : Scan)
    → s.position + 4 ≤ end
    → Inv bytes start end s
    → Inv bytes start end (skip b s)
skip-Inv bytes start end b s room inv = record {
  bound = omega (arith, inv.bound);
  whole = inv.whole;
  account = omega (arith, inv.account);
  placed = Placed-widen bytes start s.position (s.position + 1) s.frames (omega arith) inv.placed;
  streams = inv.streams;
}

accepted_same :
    (h stream : Header) → accepted (some h) (some stream) ≡ some h → same_stream h stream ≡ true
accepted_same h stream e = ground arith

module _ (bytes : List ℕ) (start end : ℕ) (h : Header) (s : Scan)
    (parsed : parse_header (drop s.position bytes) ≡ some h) (fits : s.position + size h ≤ end)
    (inv : Inv bytes start end s) where
  -- A frame that joins the ones before it.
  joined-Placed :
      Placed bytes start (s.position + size h) (s.frames ++ frame_at bytes s.position h ∷ [])
  unfolding frame_at
  joined-Placed =
      Placed-snoc bytes start (s.position + size h) s.frames (frame_at bytes s.position h)
        inv.placed (parsed, refl) (omega arith)

  joined_size :
      frames_size (s.frames ++ frame_at bytes s.position h ∷ []) ≡ frames_size s.frames + size h
  unfolding frame_at
  joined_size = frames_size-snoc s.frames (frame_at bytes s.position h)

  frame_at-size : (frame_at bytes s.position h).size ≡ size h
  unfolding frame_at
  frame_at-size = refl

-- The loop's variables after a frame that joins the others, and after the info frame.
abbrev joined : List ℕ → Header → Header → Scan → Scan
joined bytes h stream s = record s {
  position = s.position + size h;
  synced = true;
  stream = some stream;
  frames = s.frames ++ frame_at bytes s.position h ∷ [];
}

abbrev with_info : List ℕ → Header → Scan → Scan
with_info bytes h s = record s {
  position = s.position + size h;
  synced = true;
  stream = some h;
  info = some (frame_at bytes s.position h);
}

fresh-Inv :
    {bytes : List ℕ} {start end : ℕ} (s : Scan)
    → s.stream ≡ none
    → Inv bytes start end s
    → (s.info ≡ none) × (s.frames ≡ [])
fresh-Inv s fresh inv = subst (λ o. InStream o s.info s.frames) fresh inv.streams

no_info :
    {bytes : List ℕ} {start end : ℕ} (s : Scan)
    → s.stream ≡ none
    → Inv bytes start end s
    → info_size s.info ≡ 0
no_info s fresh inv = rw (fresh-Inv s fresh inv).0

found-Inv :
    {bytes : List ℕ} {start end : ℕ} {stream : Header} (s : Scan)
    → s.stream ≡ some stream
    → Inv bytes start end s
    → Streams stream s.frames
found-Inv s found inv = subst (λ o. InStream o s.info s.frames) found inv.streams

take_frame-cases :
    (bytes : List ℕ) (h : Header) (s : Scan)
    → accepted (some h) s.stream ≡ some h
    → ((s.stream ≡ none) × (take_frame bytes h s ≡ with_info bytes h s))
      ⊎ ((s.stream ≡ none) × (take_frame bytes h s ≡ joined bytes h h s))
      ⊎ ((stream : Header) × (s.stream ≡ some stream)
          × (same_stream h stream ≡ true)
          × (take_frame bytes h s ≡ joined bytes h stream s))
unfolding take_frame
take_frame-cases bytes h s fit = elim (Option-cases s.stream) [
  | inl fresh ↦ elim (Bool-cases (is_info_frame (slice bytes s.position (s.position + size h)) h)) [
    | inl yes' ↦ inl (fresh, ground arith)
    | inr no' ↦ inr (inl (fresh, ground arith))
  ]
  | inr (stream, found) ↦
      inr (inr (stream, found, accepted_same h stream (ground arith), ground arith))
]

pub take_frame-Inv :
    (bytes : List ℕ) (start end : ℕ) (h : Header) (s : Scan)
    → parse_header (drop s.position bytes) ≡ some h
    → accepted (some h) s.stream ≡ some h
    → s.position + size h ≤ end
    → Inv bytes start end s
    → Inv bytes start end (take_frame bytes h s)
unfolding frame_at
take_frame-Inv bytes start end h s parsed fit fits inv = elim (take_frame-cases bytes h s fit) [
  | inl (fresh, e) ↦ rw e (record {
    bound = fits;
    whole = inv.whole;
    account = omega (
      arith,
      inv.account,
      frame_at-size bytes start end h s parsed fits inv,
      no_info s fresh inv,
    );
    placed =
        Placed-widen bytes start s.position (s.position + size h) s.frames (omega arith) inv.placed;
    streams = subst (λ fs. Streams h fs) (sym (fresh-Inv s fresh inv).1) tt;
  })
  | inr (inl (fresh, e)) ↦ rw e (record {
    bound = fits;
    whole = inv.whole;
    account = omega (arith, inv.account, joined_size bytes start end h s parsed fits inv);
    placed = joined-Placed bytes start end h s parsed fits inv;
    streams =
        Streams-snoc h s.frames (frame_at bytes s.position h)
          (subst (λ fs. Streams h fs) (sym (fresh-Inv s fresh inv).1) tt) (same_stream_refl h);
  })
  | inr (inr (stream, found, same, e)) ↦ rw e (record {
    bound = fits;
    whole = inv.whole;
    account = omega (arith, inv.account, joined_size bytes start end h s parsed fits inv);
    placed = joined-Placed bytes start end h s parsed fits inv;
    streams =
        Streams-snoc stream s.frames (frame_at bytes s.position h) (found-Inv s found inv) same;
  })
]
