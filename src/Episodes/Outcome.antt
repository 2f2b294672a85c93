-- ===== src/Episodes/Outcome.antt =====
-- What an attempt to prepare an episode records on it (episodes/pipeline.go, recordOutcome), and how
-- a feed's episodes are prepared (episodes/reconcile.go). A processor is an interface of the source: a
-- record of its answers. The log is left out.
pub mod Branches
use Prim.Native.String.{String, ◌++◌ as append}
use text.Mathlib.Text.{◌==◌ as str_eq}
use solstein.Base.{
  ℕ, suc, ◌+◌, ◌-◌, ◌*◌, Bool, true, false, not, ◌&&◌, ◌||◌, Option, none, some, List, [], ◌∷◌, ltb,
  leb, if◌then◌else◌, length, get_or,
}
use solstein.Models.{Feed, Episode, discovered, ready, failed, is_acquiring, is_failed}

abbrev pub minutes : ℕ → ℕ
minutes n = n * 60000000000

abbrev pub max_request_failures : ℕ
max_request_failures = 3

abbrev pub retry_delays : List ℕ
retry_delays = minutes 1 ∷ minutes 5 ∷ minutes 15 ∷ minutes 60 ∷ minutes 180 ∷ []

abbrev pub withheld_retry_delays : List ℕ
withheld_retry_delays =
    minutes 60
    ∷ minutes 360
    ∷ minutes 1440
    ∷ minutes 1440
    ∷ minutes 1440
    ∷ minutes 1440
    ∷ minutes 1440
    ∷ minutes 1440
    ∷ []

abbrev pub queue_lease : ℕ
queue_lease = minutes 180

pub record Processor : Type 0 where
  pub name : String
  pub handles : Feed → Bool
  pub recipe : Feed → String
  pub hide_on_failure : Feed → Bool

-- The options of a pipeline, with the exits' default, and how a time is written in a warning.
pub record Pipeline : Type 0 where
  pub processor : Option Processor
  pub default_delivery_mode : String
  pub default_exit : String
  pub local_time : ℕ → String

unfoldable pub processes : Pipeline → Feed → Bool
processes pipeline feed = elim pipeline.processor [
  | none ↦ false
  | some processor ↦ processor.handles feed
]

unfoldable pub hides_failures : Pipeline → Feed → Bool
hides_failures pipeline feed = elim pipeline.processor [
  | none ↦ false
  | some processor ↦ processor.hide_on_failure feed
]

unfoldable pub processor_recipe : Pipeline → Feed → String
processor_recipe pipeline feed = elim pipeline.processor [
  | none ↦ ""
  | some processor ↦ append processor.name (append ": " (processor.recipe feed))
]

unfoldable pub recipe : Pipeline → Feed → String
unfolding processes processor_recipe
recipe pipeline feed =
    let mode =
      if str_eq feed.delivery_mode "" then pipeline.default_delivery_mode else feed.delivery_mode in
    let exit = if str_eq feed.exit "" then pipeline.default_exit else feed.exit in
    if processes pipeline feed
    then processor_recipe pipeline feed
    else if not (str_eq mode "cache")
    then ""
    else append "download through " exit

unfoldable pub failed_recipe : Pipeline → Feed → String
unfolding processes hides_failures recipe
failed_recipe pipeline feed =
    let outcome =
      if processes pipeline feed && hides_failures pipeline feed
      then "withheld"
      else "published unprocessed" in
    append (recipe pipeline feed) (append "; failed, " outcome)

unfoldable pub prepares : Pipeline → Feed → Bool
unfolding recipe
prepares pipeline feed = not (str_eq (recipe pipeline feed) "")

pub record PreparedEpisode : Type 0 where
  pub cache_file : String
  pub size : ℕ
  pub seconds : ℕ
  pub note : String

-- An error: its text, whether a retry won't fix it, and what a source without the audio answered.
pub record Failure : Type 0 where
  pub text : String
  pub permanent : Bool
  pub gone : Option String

pub data Attempted : Type 0 where
  prepared : PreparedEpisode → Attempted
  attempt_failed : Failure → Attempted

unfoldable pub record_prepared : Pipeline → Feed → PreparedEpisode → ℕ → Episode → Episode
record_prepared pipeline feed result now episode = record episode {
  state = ready;
  attempts = episode.attempts + 1;
  cache_file = result.cache_file;
  cache_size = result.size;
  cache_seconds = result.seconds;
  cached_at = some now;
  last_error = "";
  next_attempt_at = none;
  withheld = false;
  process_note = result.note;
  prepared_with = recipe pipeline feed;
  failed_attempts = 0;
  late_retries = 0;
}

-- A background attempt at an episode that had failed before.
unfoldable pub record_late : Pipeline → Feed → ℕ → Episode → Episode
record_late pipeline feed now episode =
    let late_retries = episode.late_retries + 1 in
    record episode {
      late_retries = late_retries;
      next_attempt_at =
          if episode.withheld && ltb late_retries (length withheld_retry_delays)
          then some (now + get_or withheld_retry_delays late_retries 0)
          else none;
      prepared_with = failed_recipe pipeline feed;
    }

-- The failure policy of a processor decides whether the episode is published without its file.
unfoldable pub give_up : Pipeline → Feed → Bool → ℕ → Episode → Episode
unfolding hides_failures
give_up pipeline feed processed now episode =
    let withheld = if processed then hides_failures pipeline feed else episode.withheld in
    record episode {
      state = failed;
      prepared_with = failed_recipe pipeline feed;
      late_retries = 0;
      withheld = withheld;
      next_attempt_at =
          if processed && hides_failures pipeline feed
          then some (now + get_or withheld_retry_delays 0 0)
          else none;
    }

unfoldable pub retry : ℕ → Episode → Episode
retry now episode = record episode {
  state = discovered;
  next_attempt_at = some (now + get_or retry_delays (episode.attempts - 1) 0);
}

-- Which of the four ways a failure is recorded; the counters are raised already.
unfoldable pub record_failed : Pipeline → Feed → Bool → Failure → ℕ → Episode → Episode
unfolding record_late give_up retry
record_failed pipeline feed processed failure now episode =
    let claimed = is_acquiring episode.state in
    if is_failed episode.state
    then record_late pipeline feed now episode
    else if failure.permanent
        || (claimed && ltb (length retry_delays) episode.attempts)
        || (not claimed && leb max_request_failures episode.failed_attempts)
    then give_up pipeline feed processed now episode
    else if claimed
    then retry now episode
    else record episode { next_attempt_at = none }

abbrev pub raise : Failure → Episode → Episode
raise failure episode = record episode {
  attempts = episode.attempts + 1;
  failed_attempts = episode.failed_attempts + 1;
  last_error = failure.text;
}

-- The episode as an attempt leaves it.
unfoldable pub outcome : Pipeline → Feed → Bool → ℕ → Attempted → Episode → Episode
unfolding record_prepared record_failed
outcome pipeline feed processed now attempted episode = elim attempted [
  | prepared result ↦ record_prepared pipeline feed result now episode
  | attempt_failed failure ↦
      record_failed pipeline feed processed failure now (raise failure episode)
]
