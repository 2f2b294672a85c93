-- ===== src/Episodes/Status.antt =====
-- Where an episode stands, as the feed's page shows it (episodes/status.go, viewOf). The error text,
-- which a regular expression rewrites, is left out.
pub mod Queue
use Prim.Native.String.{String}
use text.Mathlib.Text.{◌==◌ as str_eq}
use solstein.Base.{
  ℕ, Bool, true, false, not, ◌&&◌, ◌||◌, Option, none, some, ltb, leb, if◌then◌else◌, length,
}
use solstein.Models.{
  Episode, State, discovered, acquiring, processing, ready, failed, is_acquiring, is_failed,
  is_discovered,
}
use solstein.Episodes.Outcome.{withheld_retry_delays}
use solstein.Episodes.Store.{is_due, is_null}

pub data Status : Type 0 where
  cleaned cached not_cached passed_through working queued retrying withheld given_up : Status
  published_with_ads hidden : Status

pub record View : Type 0 where
  pub status : Status
  pub next_attempt : Option ℕ
  pub can_retry : Bool
  pub can_prepare : Bool

abbrev pub is_later : Option ℕ → ℕ → Bool
is_later none now = false
is_later (some t) now = ltb now t

abbrev is_processing : State → Bool
is_processing processing = true
is_processing discovered = false
is_processing acquiring = false
is_processing ready = false
is_processing failed = false

-- The status, and when the next attempt is if the status shows it.
unfoldable pub status_of : Bool → Bool → ℕ → Episode → Status × Option ℕ
status_of prepares busy now episode =
    let due = is_due episode.next_attempt_at now in
    let later = is_later episode.next_attempt_at now in
    if busy || is_acquiring episode.state || is_processing episode.state
    then (working, none)
    else if episode.hidden
    then (hidden, none)
    else if is_discovered episode.state && later && ltb 0 episode.failed_attempts
    then (retrying, episode.next_attempt_at)
    else if is_discovered episode.state
    then (queued, none)
    else if is_failed episode.state && due
    then (queued, none)
    else if is_failed episode.state && episode.withheld && later
    then (withheld, episode.next_attempt_at)
    else if is_failed episode.state
        && episode.withheld
        && leb (length withheld_retry_delays) episode.late_retries
    then (given_up, none)
    else if is_failed episode.state && episode.withheld
    then (withheld, none)
    else if is_failed episode.state
    then (published_with_ads, none)
    else if not (str_eq episode.cache_file "") && not (str_eq episode.process_note "")
    then (cleaned, none)
    else if not (str_eq episode.cache_file "")
    then (cached, none)
    else if not prepares
    then (passed_through, none)
    else if due
    then (queued, none)
    else (not_cached, none)

abbrev pub is_working : Status → Bool
is_working working = true
is_working s = false

abbrev pub is_in_queue : Status → Bool
is_in_queue queued = true
is_in_queue s = false

abbrev pub is_not_cached : Status → Bool
is_not_cached not_cached = true
is_not_cached s = false

unfoldable pub view_of : Bool → Bool → ℕ → Episode → View
unfolding status_of
view_of prepares busy now episode =
    let (status, next) = status_of prepares busy now episode in
    let idle = not (is_working status) && not (is_in_queue status) in
    let background = idle && prepares && is_null episode.dropped_at in
    record {
      status = status;
      next_attempt = next;
      can_retry = background && is_failed episode.state;
      can_prepare = background && is_not_cached status;
    }
