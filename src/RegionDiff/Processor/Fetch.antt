-- ===== src/RegionDiff/Processor/Fetch.antt =====
-- The downloads that region diff compares (modules/regiondiff/processor.go). The log of what a job
-- asks of the pipeline, newest first, is the state; what the pipeline answers, and whether the attempt
-- is given up or a fallback has taken too long by then, are functions of it. Two downloads that are
-- made together are logged in one order.
use Prim.Native.String.{String}
use solstein.Base.{
  ℕ, ◌*◌, Bool, true, not, ◌&&◌, ◌||◌, Option, none, some, List, [], ◌∷◌, ◌==◌, ltb, leb,
  if◌then◌else◌,
}
use solstein.Mp3.Frame.{file_duration}
use solstein.Mp3.Parse.{parse, ok, not_mp3}
use solstein.RegionDiff.Processor.{ProcessorOptions, downloads_in_turn}

pub data Action : Type 0 where
  fetched : String → Bool → Action
  closed : String → Action

abbrev pub Log : Type 0
Log = List Action

pub record Download : Type 0 where
  pub data_bytes : List ℕ
  pub content_type : String

-- What is outside of the processor.
pub record World : Type 0 where
  pub respond : Log → String → Bool → Option Download
  pub stopped : Log → Bool
  pub timed_out : Log → Bool

pub record Checked : Type 0 where
  pub download : Download
  pub duration : ℕ

-- A download through an exit, and the log after it.
abbrev pub fetch : World → String → Bool → Log → Option Download × Log
fetch world exit fresh log = (world.respond log exit fresh, fetched exit fresh ∷ log)

-- Why an attempt fails.
pub data Failure : Type 0 where
  gave_up same_country home_failed no_partner : Failure

-- The exit compared with, its download and the fallbacks that are left.
pub record Partner : Type 0 where
  pub download : Download
  pub exit : String
  pub left : List String

unfoldable pub fetch_partner : World → Bool → List String → Log → Option Partner × Log
fetch_partner world fresh [] log = (none, log)
fetch_partner world fresh (exit ∷ left) log =
    let (got, after) = fetch world exit fresh log in
    let rest = fetch_partner world fresh left after in
    elim got [
      | some download ↦ (some (record { download = download; exit = exit; left = left }), after)
      | none ↦ if world.stopped after then (none, after) else rest
    ]

-- The home download and the one that it is compared with.
pub data Pair : Type 0 where
  no_pair : Failure → Pair
  pair_of : Download → Partner → Pair

unfoldable pub fetch_pair :
    World → ProcessorOptions → Bool → String × String → List String → Log → Pair × Log
unfolding downloads_in_turn fetch_partner
fetch_pair world options fresh pair fallbacks log =
    let (got, after) = fetch world pair.0 fresh log in
    elim got [
      | none ↦ (no_pair home_failed, after)
      | some home ↦
          let start = if downloads_in_turn options pair then closed pair.0 ∷ after else after in
          let (partner, end) = fetch_partner world fresh (pair.1 ∷ fallbacks) start in
          elim partner [ none ↦ (no_pair no_partner, end) | some found ↦ (pair_of home found, end) ]
    ]

-- The playing time, 0 for what is no MP3.
unfoldable pub audio_duration : List ℕ → ℕ
audio_duration bytes = elim (parse bytes) [
  | none ↦ 0
  | some parsed ↦ elim parsed [ ok file ↦ file_duration file | not_mp3 ↦ 0 ]
]

-- A download that plays less than eight tenths of what is expected, in exact fractions where the source
-- multiplies in float64.
unfoldable pub incomplete : ℕ → ℕ → ℕ → Bool
incomplete duration expected other =
    (duration == 0 && ltb 0 other)
    || (ltb 0 expected && ltb (duration * 10) (expected * 8))
    || (expected == 0 && ltb 0 other && ltb (duration * 10) (other * 8))

unfoldable pub recheck : World → ℕ → String → ℕ → Checked → Log → Checked × Log
unfolding incomplete audio_duration
recheck world expected exit other checked log =
    let (got, after) = fetch world exit true log in
    if not (incomplete checked.duration expected other) then (checked, log) else elim got [
      | none ↦ (checked, after)
      | some again ↦
          let duration = audio_duration again.data_bytes in
          if incomplete duration expected other && leb duration checked.duration
          then (checked, after)
          else (record { download = again; duration = duration }, after)
    ]
