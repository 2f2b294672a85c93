-- ===== src/Mp3/Parse.antt =====
-- Reading a whole file (mp3/mp3.go, Parse): the loop that finds the frames, round by round.
pub mod Rounds
pub mod Total
pub mod Layout
pub mod Result
use solstein.Base.{
  ℕ, suc, ◌+◌, ◌-◌, Bool, true, false, not, ◌&&◌, Option, none, some, List, [], ◌∷◌, ◌++◌, ◌==◌,
  ltb, leb, if◌then◌else◌, length, slice, take, drop, Round, more, stop, iterate,
}
use solstein.Mp3.Header.{Header, parse_header, size, same_stream}
use solstein.Mp3.Frame.{Frame, File, main_data_begin, is_info_frame}
use solstein.Mp3.Tags.{id3v2_length, has_id3v1}

-- Whether a candidate frame that ends at `next` is followed by a matching header, or by the end.
unfoldable pub confirmed : List ℕ → ℕ → Header → Bool
confirmed bytes next header =
    if next == length bytes then true else elim (parse_header (drop next bytes)) [
      | none ↦ false
      | some following ↦ same_stream following header && leb (next + size following) (length bytes)
    ]

-- The loop's variables, and the fields of `file` that it fills in.
pub record Scan : Type 0 where
  pub position : ℕ
  pub stream : Option Header
  pub synced : Bool
  pub info : Option Frame
  pub frames : List Frame
  pub skipped : ℕ
  pub truncated : ℕ

-- A header that can belong to the stream found so far.
abbrev pub accepted : Option Header → Option Header → Option Header
accepted none _ = none
accepted (some header) none = some header
accepted (some header) (some stream) = if same_stream header stream then some header else none

-- The frame with a header at a position.
unfoldable pub frame_at : List ℕ → ℕ → Header → Frame
frame_at bytes position header = record {
  offset = position;
  size = size header;
  header = header;
  main_data_begin =
      if header.layer == 3
      then main_data_begin (slice bytes position (position + size header)) header
      else 0;
}

-- A frame that fits and is believed: the first may be the info frame, which is kept apart.
unfoldable pub take_frame : List ℕ → Header → Scan → Scan
take_frame bytes header s =
    let frame = frame_at bytes s.position header in
    let next = record s { position = s.position + size header; synced = true } in
    elim s.stream [
      | none ↦
          if is_info_frame (slice bytes s.position (s.position + size header)) header
          then record next { stream = some header; info = some frame }
          else record next { stream = some header; frames = s.frames ++ frame ∷ [] }
      | some _ ↦ record next { frames = s.frames ++ frame ∷ [] }
    ]

-- One round with a header at the position, or none.
unfoldable pub scan_header : List ℕ → ℕ → Option Header → Scan → Round Scan
scan_header bytes end none s =
    more (record s { position = s.position + 1; skipped = s.skipped + 1; synced = false })
scan_header bytes end (some header) s =
    if ltb end (s.position + size header)
    then (if s.synced
        then stop (record s { truncated = end - s.position; position = end })
        else more (record s { position = s.position + 1; skipped = s.skipped + 1 }))
    else if not s.synced && not (confirmed (take end bytes) (s.position + size header) header)
    then more (record s { position = s.position + 1; skipped = s.skipped + 1 })
    else more (take_frame bytes header s)

-- One round of the loop.
unfoldable pub scan_round : List ℕ → ℕ → Scan → Round Scan
scan_round bytes end s =
    if ltb end (s.position + 4)
    then stop s
    else scan_header bytes end (accepted (parse_header (drop s.position bytes)) s.stream) s

abbrev pub start_scan : ℕ → Scan
start_scan position = record {
  position = position;
  stream = none;
  synced = false;
  info = none;
  frames = [];
  skipped = 0;
  truncated = 0;
}

abbrev pub audio_end : List ℕ → ℕ → ℕ
audio_end bytes position = if has_id3v1 bytes position then length bytes - 128 else length bytes

-- The loop. Each round moves the position on, so the length of the data is fuel enough.
unfoldable pub scan : List ℕ → ℕ → Option Scan
scan bytes position =
    iterate (scan_round bytes (audio_end bytes position)) (suc (length bytes)) (start_scan position)

pub data Parsed : Type 0 where
  ok : File → Parsed
  not_mp3 : Parsed

-- What `Parse` returns from the loop's last state.
unfoldable pub finish : List ℕ → ℕ → Scan → Parsed
finish bytes position s =
    let end = audio_end bytes position in
    elim s.frames [
      | [] ↦ not_mp3
      | frame ∷ frames ↦ ok (record {
        bytes = bytes;
        id3v2 = take position bytes;
        info = s.info;
        frames = frame ∷ frames;
        id3v1 = drop end bytes;
        skipped = s.skipped + (end - s.position);
        truncated = s.truncated;
      })
    ]

-- The outer `Option` is the loops' fuel.
unfoldable pub parse : List ℕ → Option Parsed
unfolding scan finish scan_round scan_header take_frame confirmed frame_at
parse bytes = elim (id3v2_length bytes) [
  | none ↦ none
  | some position ↦ elim (scan bytes position) [
    | none ↦ none
    | some s ↦ some (finish bytes position s)
  ]
]
