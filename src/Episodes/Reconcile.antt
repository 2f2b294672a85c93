-- ===== src/Episodes/Reconcile.antt =====
-- Bringing an episode in line with its feed's settings (episodes/reconcile.go). The removal of a
-- cached file that is outdated is left out: the row forgets it, whether or not it could be deleted.
pub mod Settled
use Prim.Native.String.{String}
use text.Mathlib.Text.{◌==◌ as str_eq}
use solstein.Base.{
  ℕ, Bool, true, false, not, ◌&&◌, ◌||◌, none, some, List, [], ◌∷◌, ◌==◌, if◌then◌else◌,
}
use solstein.Models.{Feed, Episode, discovered, ready, is_failed, is_ready, forget_cache}
use solstein.Episodes.Outcome.{Pipeline, processes, recipe, failed_recipe, prepares}
use solstein.Episodes.Store.{is_null, has_id, update_episode}

pub data ReconcileOutcome : Type 0 where
  unchanged recorded cache_cleared failure_cleared : ReconcileOutcome

-- A failed episode starts from the first attempt.
unfoldable pub restart : Pipeline → Feed → Episode → Episode
unfolding forget_cache prepares
restart pipeline feed episode = record (forget_cache episode) {
  attempts = 0;
  failed_attempts = 0;
  next_attempt_at = none;
  last_error = "";
  late_retries = 0;
  withheld = false;
  process_note = "";
  prepared_with = "";
  state = if episode.backlog || not (prepares pipeline feed) then ready else discovered;
}

-- One withheld before there were slow retries starts them now.
unfoldable pub record_settings : Pipeline → Feed → ℕ → Episode → Episode × ReconcileOutcome
unfolding failed_recipe
record_settings pipeline feed now episode =
    let old = str_eq episode.prepared_with "" in
    let unscheduled =
      episode.withheld && is_null episode.next_attempt_at && episode.late_retries == 0 in
    (
      record episode {
        prepared_with = if old then failed_recipe pipeline feed else episode.prepared_with;
        next_attempt_at = if unscheduled then some now else episode.next_attempt_at;
      },
      if old || unscheduled then recorded else unchanged,
    )

unfoldable pub clear_file : Episode → Episode
unfolding forget_cache
clear_file episode = record (forget_cache episode) { process_note = ""; prepared_with = "" }

unfoldable pub reconcile_file : Pipeline → Feed → Episode → Episode × ReconcileOutcome
unfolding recipe processes clear_file
reconcile_file pipeline feed episode =
    let want = recipe pipeline feed in
    if str_eq episode.prepared_with ""
    then (if not (processes pipeline feed) || not (str_eq episode.process_note "")
        then (record episode { prepared_with = want }, recorded)
        else (clear_file episode, cache_cleared))
    else if str_eq episode.prepared_with want
    then (episode, unchanged)
    else (clear_file episode, cache_cleared)

unfoldable pub reconcile_episode : Pipeline → Feed → ℕ → Episode → Episode × ReconcileOutcome
unfolding restart record_settings reconcile_file
reconcile_episode pipeline feed now episode =
    if is_failed episode.state
    then (if str_eq episode.prepared_with (failed_recipe pipeline feed)
          || str_eq episode.prepared_with ""
        then record_settings pipeline feed now episode
        else (restart pipeline feed episode, failure_cleared))
    else if not (str_eq episode.cache_file "") && is_ready episode.state
    then reconcile_file pipeline feed episode
    else (episode, unchanged)

abbrev pub is_unchanged : ReconcileOutcome → Bool
is_unchanged unchanged = true
is_unchanged o = false

-- One feed's episodes in their order; those being prepared are left alone.
unfoldable pub reconcile_feed : Pipeline → Feed → List ℕ → ℕ → List Episode → List Episode
unfolding reconcile_episode has_id
reconcile_feed pipeline feed in_flight now [] = []
reconcile_feed pipeline feed in_flight now (e ∷ es) =
    let rest = reconcile_feed pipeline feed in_flight now es in
    let (changed, outcome) = reconcile_episode pipeline feed now e in
    if not (e.feed_id == feed.id) || has_id in_flight e.id || is_unchanged outcome
    then e ∷ rest
    else changed ∷ rest
