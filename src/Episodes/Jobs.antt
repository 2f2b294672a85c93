-- ===== src/Episodes/Jobs.antt =====
-- An attempt's outcome in the table of episodes (episodes/pipeline.go, recordOutcome;
-- episodes/dropped.go, noteGone), and the queueing of one episode or a whole feed (episodes/status.go,
-- QueueEpisode; episodes/queue.go). An episode that a job prepares is in the list of those in flight.
pub mod Rows
use Prim.Native.String.{String, ◌++◌ as append}
use text.Mathlib.Text.{◌==◌ as str_eq}
use solstein.Base.{
  ℕ, zero, suc, ◌+◌, Bool, true, false, not, ◌&&◌, ◌||◌, Option, none, some, List, [], ◌∷◌, ◌==◌,
  ltb, leb, if◌then◌else◌, length, take,
}
use solstein.Models.{Feed, Episode, is_failed}
use solstein.Episodes.Outcome.{
  Pipeline, Failure, Attempted, prepared, attempt_failed, outcome, prepares,
}
use solstein.Episodes.Store.{
  is_null, is_older, has_id, update_where, count_where, queue_failed_episodes,
  queue_uncached_episodes, update_episode,
}

unfoldable pub set_episode_serve : ℕ → ℕ → String → String → List Episode → Option (List Episode)
unfolding update_where count_where
set_episode_serve feed_id id serve warning episodes =
    let selects = λ (e : Episode). e.id == id && e.feed_id == feed_id in
    if count_where selects episodes == 0
    then none
    else some
        (update_where selects (λ e. record e { serve = serve; serve_warning = warning }) episodes)

-- A dropped episode whose source answered that the audio is gone is not served any more.
unfoldable pub note_gone : Pipeline → ℕ → Episode → Failure → List Episode → List Episode
unfolding set_episode_serve
note_gone pipeline now episode failure episodes =
    if is_null episode.dropped_at then episodes else elim failure.gone [
      | none ↦ episodes
      | some status ↦
          let warning = append "Its source answered " (
            append status (
              append " on " (
                append (pipeline.local_time now)
                  ": the audio is gone, so it is no longer served."))) in
          elim (set_episode_serve episode.feed_id episode.id "off" warning episodes) [
            | none ↦ episodes
            | some served ↦ served
          ]
    ]

unfoldable pub note_attempt : Pipeline → ℕ → Episode → Attempted → List Episode → List Episode
unfolding note_gone
note_attempt pipeline now episode attempted episodes = elim attempted [
  | prepared result ↦ episodes
  | attempt_failed failure ↦ note_gone pipeline now episode failure episodes
]

-- The table after an attempt, unchanged when the pipeline is shutting down; none is
-- ErrEpisodeNotFound.
unfoldable pub record_outcome :
    Pipeline → Feed → Bool → Bool → ℕ → Attempted → Episode → List Episode → Option (List Episode)
unfolding outcome note_attempt update_episode
record_outcome pipeline feed stopping processed now attempted episode episodes =
    if stopping
    then some episodes
    else update_episode (outcome pipeline feed processed now attempted episode)
        (note_attempt pipeline now episode attempted episodes)

-- Why an episode is not queued, or whether it was.
pub data Queued : Type 0 where
  not_prepared not_found busy : Queued
  queued : Bool → List Episode → Queued

unfoldable pub get_episode : ℕ → ℕ → List Episode → Option Episode
get_episode feed_id id [] = none
get_episode feed_id id (e ∷ es) =
    let rest = get_episode feed_id id es in
    if e.id == id && e.feed_id == feed_id then some e else rest

abbrev queued_of : List Episode → ℕ × List Episode → Queued
queued_of episodes (count, table) = if count == 0 then queued false episodes else queued true table

-- The episode at one moment, then the statement that queues it.
unfoldable pub queue_found : Bool → ℕ → Episode → List Episode → Queued
unfolding queue_failed_episodes queue_uncached_episodes
queue_found working now episode episodes =
    if working
    then busy
    else if episode.hidden || not (is_null episode.dropped_at)
    then queued false episodes
    else if is_failed episode.state
    then queued_of episodes (queue_failed_episodes (episode.id ∷ []) now episodes)
    else queued_of episodes (queue_uncached_episodes (episode.id ∷ []) now episodes)

unfoldable pub queue_episode : Pipeline → Feed → List ℕ → ℕ → ℕ → List Episode → Queued
unfolding prepares get_episode has_id queue_found
queue_episode pipeline feed in_flight now id episodes =
    if not (prepares pipeline feed) then not_prepared else elim (get_episode feed.id id episodes) [
      | none ↦ not_found
      | some episode ↦ queue_found (has_id in_flight episode.id) now episode episodes
    ]

-- Newest first, undated ones last: whether `a` comes after `b`.
abbrev pub is_after : Episode → Episode → Bool
is_after a b = elim a.published_at [
  | none ↦ elim b.published_at [ none ↦ false | some t ↦ true ]
  | some s ↦ elim b.published_at [ none ↦ false | some t ↦ ltb s t ]
]

-- A stable sort: an element goes in front of the first that does not come before it.
unfoldable pub insert_stable : Episode → List Episode → List Episode
insert_stable e [] = e ∷ []
insert_stable e (x ∷ xs) =
    let rest = insert_stable e xs in if is_after e x then x ∷ rest else e ∷ x ∷ xs

unfoldable pub newest_first : List Episode → List Episode
unfolding insert_stable
newest_first [] = []
newest_first (e ∷ es) = insert_stable e (newest_first es)

unfoldable pub list_episodes : ℕ → List Episode → List Episode
list_episodes feed_id [] = []
list_episodes feed_id (e ∷ es) =
    if e.feed_id == feed_id then e ∷ list_episodes feed_id es else list_episodes feed_id es

-- The identifiers of the episodes that the background may prepare.
unfoldable pub ids_of : List ℕ → List Episode → List ℕ
unfolding has_id
ids_of in_flight [] = []
ids_of in_flight (e ∷ es) =
    if not (has_id in_flight e.id) && not e.hidden && is_null e.dropped_at
    then e.id ∷ ids_of in_flight es
    else ids_of in_flight es

-- The newest episodes, all of them for 0.
unfoldable pub newest_ids : List ℕ → ℕ → List Episode → List ℕ
unfolding newest_first ids_of
newest_ids in_flight newest list =
    let sorted = newest_first list in
    ids_of in_flight
      (if ltb 0 newest && ltb newest (length sorted) then take newest sorted else sorted)

-- How many of a feed's episodes are queued, through the statement given; none is ErrNotPrepared.
unfoldable pub queue_episodes :
    Pipeline
    → Feed
    → List ℕ
    → ℕ
    → (List ℕ → ℕ → List Episode → ℕ × List Episode)
    → ℕ
    → List Episode
    → Option (ℕ × List Episode)
unfolding prepares list_episodes newest_ids
queue_episodes pipeline feed in_flight newest queue now episodes =
    if not (prepares pipeline feed)
    then none
    else some (queue (newest_ids in_flight newest (list_episodes feed.id episodes)) now episodes)

unfoldable pub retry_failed :
    Pipeline → Feed → List ℕ → ℕ → List Episode → Option (ℕ × List Episode)
unfolding queue_episodes
retry_failed pipeline feed in_flight now episodes =
    queue_episodes pipeline feed in_flight 0 queue_failed_episodes now episodes

unfoldable pub queue : Pipeline → Feed → List ℕ → ℕ → ℕ → List Episode → Option (ℕ × List Episode)
unfolding queue_episodes
queue pipeline feed in_flight newest now episodes =
    queue_episodes pipeline feed in_flight newest queue_uncached_episodes now episodes
