-- ===== src/RegionDiff/Processor/Finish.antt =====
-- From the downloads of an episode to what the pipeline caches (modules/regiondiff/processor.go). The
-- comparison of two downloads is a parameter. Notes, and the copies kept for a look, are left out.
pub mod Source
pub mod Made
use Prim.Native.String.{String}
use text.Mathlib.Text.{◌==◌ as str_eq}
use solstein.Base.{
  ℕ, Bool, true, false, not, Option, none, some, List, [], ◌∷◌, ◌==◌, if◌then◌else◌, length,
}
use solstein.Models.{Feed}
use solstein.RegionDiff.Run.{Options, Result}
use solstein.RegionDiff.Segments.{Verdict, identical, implausible, unsupported, no_shared_frames}
use solstein.RegionDiff.FrameDiff.{is_empty}
use solstein.RegionDiff.Processor.{ProcessorOptions, exits_for, in_different_countries, options_for}
use solstein.RegionDiff.Processor.Fetch.{
  Action, closed, Log, Download, World, Checked, fetch, Failure, gave_up, same_country, home_failed,
  no_partner, Partner, Pair, no_pair, pair_of, fetch_partner, fetch_pair, audio_duration, recheck,
}

pub record Processed : Type 0 where
  pub audio : List ℕ
  pub content_type : String
  pub duration : ℕ

pub data ProcessOutcome : Type 0 where
  processed : Processed → ProcessOutcome
  not_fetched : Failure → ProcessOutcome
  rejected : Verdict → ProcessOutcome

-- A failure that a retry won't fix.
abbrev pub is_permanent : ProcessOutcome → Bool
is_permanent (rejected unsupported) = true
is_permanent o = false

abbrev pub is_identical : Option Verdict → Bool
is_identical (some identical) = true
is_identical v = false

-- The comparison that stands: with which exit's download, and what it came to.
pub record Compared : Type 0 where
  pub exit : String
  pub against : Checked
  pub result : Result
  pub verdict : Option Verdict

module _ (world : World) (compare : Options → List ℕ → List ℕ → Result × Option Verdict) where
  -- As long as the audio is the same, the fallbacks are tried; also whether the attempt is given up.
  unfoldable pub compare_fallbacks :
      Options → Bool → Checked → List String → Compared → Log → Compared × Bool × Log
  unfolding recheck audio_duration
  compare_fallbacks options fresh home [] compared log = (compared, false, log)
  compare_fallbacks options fresh home (exit ∷ left) compared log =
      let (got, after) = fetch world exit fresh (closed compared.exit ∷ log) in
      let skipped =
        compare_fallbacks options fresh home left compared
          (if world.timed_out after then closed exit ∷ after else after) in
      if not (is_identical compared.verdict)
      then (compared, false, log)
      else if world.stopped after
      then (compared, true, after)
      else elim got [
        | none ↦ skipped
        | some download ↦
            let (against, end) =
              recheck world options.expected_duration exit home.duration
                (record { download = download; duration = audio_duration download.data_bytes })
                after in
            let (result, verdict) =
              compare options home.download.data_bytes against.download.data_bytes in
            compare_fallbacks options fresh home left
              (record { exit = exit; against = against; result = result; verdict = verdict }) end
      ]

  -- What a comparison means for the home download.
  unfoldable pub publish : Checked → Compared → ProcessOutcome
  publish home compared = elim compared.verdict [
    | some identical ↦ processed (record {
      audio = home.download.data_bytes;
      content_type = home.download.content_type;
      duration = 0;
    })
    | some v ↦ rejected v
    | none ↦ processed (record {
      audio = compared.result.output;
      content_type = home.download.content_type;
      duration = if is_empty compared.result.removed then 0 else compared.result.duration;
    })
  ]

  unfoldable pub first_comparison :
      Options → Bool → String → Download → Partner → Log → Checked × Compared × Log
  unfolding recheck audio_duration
  first_comparison options fresh home_exit home partner log =
      let home_time = audio_duration home.data_bytes in
      let other_time = audio_duration partner.download.data_bytes in
      let (first, log1) =
        recheck world options.expected_duration home_exit other_time
          (record { download = home; duration = home_time }) log in
      let (other, log2) =
        recheck world options.expected_duration partner.exit first.duration
          (record { download = partner.download; duration = other_time }) log1 in
      let (result, verdict) = compare options first.download.data_bytes other.download.data_bytes in
      (
        first,
        record { exit = partner.exit; against = other; result = result; verdict = verdict },
        log2,
      )

  -- The connection of the exit compared with last is dropped at the end, also of an attempt that is
  -- given up.
  unfoldable pub finish_pair :
      Options → Bool → String → Download → Partner → Log → ProcessOutcome × Log
  unfolding first_comparison compare_fallbacks publish
  finish_pair options fresh home_exit home partner log =
      let (first, compared, log1) = first_comparison options fresh home_exit home partner log in
      let (last, given_up, log2) =
        compare_fallbacks options fresh first partner.left compared log1 in
      (if given_up then not_fetched gave_up else publish first last, closed last.exit ∷ log2)

  -- The pair that was downloaded, compared.
  unfoldable pub finish_or :
      ProcessorOptions → Feed → ℕ → Bool → String × String → Pair × Log → ProcessOutcome × Log
  unfolding options_for finish_pair
  finish_or options feed expected fresh pair (got, after) = elim got [
    | no_pair why ↦ (not_fetched why, after)
    | pair_of home partner ↦
        finish_pair (options_for options feed expected) fresh pair.0 home partner after
  ]

  unfoldable pub process : ProcessorOptions → Feed → ℕ → Bool → Log → ProcessOutcome × Log
  unfolding exits_for in_different_countries fetch_pair finish_or
  process options feed expected fresh log =
      let (own, others) = exits_for options feed in
      elim (in_different_countries options own others) [
        | none ↦ (not_fetched same_country, log)
        | some (pair, fallbacks) ↦
            finish_or options feed expected fresh pair
              (fetch_pair world options fresh pair fallbacks log)
      ]

  -- A job of a batch: its feed, the duration stated and whether a fresh copy is asked for.
  abbrev pub Job : Type 0
  Job = Feed × ℕ × Bool

  -- A job with its home download, or the outcome that it has already.
  pub data Begun : Type 0 where
    ended : ProcessOutcome → Begun
    begun : Job → String × String → List String → Download → Begun

  unfoldable pub fetch_homes : ProcessorOptions → List Job → Log → List Begun × Log
  unfolding exits_for in_different_countries
  fetch_homes options [] log = ([], log)
  fetch_homes options (job ∷ jobs) log =
      let (own, others) = exits_for options job.0 in
      elim (in_different_countries options own others) [
        | none ↦
            let (rest, end) = fetch_homes options jobs log in
            (ended (not_fetched same_country) ∷ rest, end)
        | some (pair, fallbacks) ↦
            let (got, after) = fetch world pair.0 job.2 log in
            let (rest, end) = fetch_homes options jobs after in
            elim got [
              | none ↦ (ended (not_fetched home_failed) ∷ rest, end)
              | some home ↦ (begun job pair fallbacks home ∷ rest, end)
            ]
      ]

  -- The home exit of the last job that has its home download.
  unfoldable pub last_home : String → List Begun → String
  last_home exit [] = exit
  last_home exit (ended o ∷ rest) = last_home exit rest
  last_home exit (begun job pair fallbacks home ∷ rest) = last_home pair.0 rest

  unfoldable pub finish_all : ProcessorOptions → List Begun → Log → List ProcessOutcome × Log
  unfolding fetch_partner finish_pair options_for
  finish_all options [] log = ([], log)
  finish_all options (ended outcome ∷ rest) log =
      let (outcomes, end) = finish_all options rest log in (outcome ∷ outcomes, end)
  finish_all options (begun job pair fallbacks home ∷ rest) log =
      let (got, after) = fetch_partner world job.2 (pair.1 ∷ fallbacks) log in
      elim got [
        | none ↦
            let (outcomes, end) = finish_all options rest after in
            (not_fetched no_partner ∷ outcomes, end)
        | some partner ↦
            let (outcome, after1) =
              finish_pair (options_for options job.0 job.1) job.2 pair.0 home partner after in
            let (outcomes, end) = finish_all options rest after1 in (outcome ∷ outcomes, end)
      ]

  -- All home downloads before any partner's; the home exit is dropped once between them. The attempt
  -- has its turn.
  unfoldable pub process_batch : ProcessorOptions → List Job → Log → List ProcessOutcome × Log
  unfolding fetch_homes last_home finish_all
  process_batch options jobs log =
      let (homes, after) = fetch_homes options jobs log in
      let exit = last_home "" homes in
      finish_all options homes (if str_eq exit "" then after else closed exit ∷ after)
