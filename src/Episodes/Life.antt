-- ===== src/Episodes/Life.antt =====
-- One episode's row with the copies that others hold of it: the writes of the row's state and counters,
-- in any order (episodes/pipeline.go, episodes/reconcile.go, episodes/housekeeping.go,
-- episodes/serve.go, database/pipeline.go, database/feed_rule.go). Whoever read the row works on that
-- copy, however old it is by then, and saves it whole. Writes of other columns alone are left out: the
-- title and length, hiding, dropping and serving, and when a file was released or served.
pub mod Sound
pub mod Reconciled
pub mod Teed
pub mod Steps
use Prim.Native.String.{String}
use text.Mathlib.Text.{◌==◌ as str_eq}
use solstein.Base.{
  ℕ, ◌+◌, ◌≡◌, Bool, true, false, ◌&&◌, ◌||◌, none, some, List, [], ◌∷◌, ◌++◌, if◌then◌else◌, take,
  drop, get_elem?, set, not,
}
use solstein.Models.{
  Feed, Episode, State, discovered, ready, is_acquiring, is_failed, is_discovered, is_ready,
  forget_cache,
}
use solstein.Episodes.Outcome.{Pipeline, Attempted, outcome}
use solstein.Episodes.Store.{
  acquire, discover, lease, save_over, is_queued, is_uncached, queue_at, queue_afresh,
}
use solstein.Episodes.Reconcile.{reconcile_episode, is_unchanged}
use solstein.Episodes.Serve.{is_teeable, record_tee}

-- The row, the copies that jobs work on, and those that a reconciliation, a sweep of the cache or a
-- request has read.
pub record Life : Type 0 where
  pub row : Episode
  pub copies : List Episode
  pub reads : List Episode

-- A row as a poll stores it.
abbrev pub IsNew : Episode → Type 0
IsNew e =
    ((is_discovered e.state || is_ready e.state) ≡ true)
    × (e.attempts ≡ 0)
    × (e.failed_attempts ≡ 0)
    × (e.next_attempt_at ≡ none)
    × (e.withheld ≡ false)

-- A hidden episode is shown again as backlog, and queued where the feed prepares ahead.
unfoldable pub show_as_backlog : Bool → ℕ → Episode → Episode
show_as_backlog queue_shown now e = record e {
  hidden = false;
  backlog = true;
  state = ready;
  next_attempt_at = if queue_shown && str_eq e.cache_file "" then some now else none;
}

-- What happens: a worker or a request takes the row, or a request the published copy that it read; a
-- job ends, one by its number among the copies, or is lost with the process; the row is queued,
-- recovered at start-up or shown again; it is read, and a copy that was read, by its number, is brought
-- in line with settings, loses its file or gets one while it is streamed, and is saved. A copy can be
-- used again, as a request does with the one that it read.
pub data Event : Type 0 where
  claimed recovered read : Event
  observed forgotten : ℕ → Event
  leased : ℕ → ℕ → Event
  attempted : ℕ → Feed → Bool → ℕ → Attempted → Event
  lost : ℕ → Event
  failed_queued uncached_queued : ℕ → Event
  reconciled : ℕ → Feed → ℕ → Event
  teed : ℕ → Feed → Bool → String → ℕ → ℕ → Event
  shown : Bool → ℕ → Event

abbrev pub without_copy : ℕ → List Episode → List Episode
without_copy i copies = take i copies ++ drop (i + 1) copies

abbrev pub rewrite_if : Bool → (Episode → Episode) → Life → Life
rewrite_if test change life = if test then record life { row = change life.row } else life

-- A copy that was read is changed, and saved over the row.
abbrev pub save_read : ℕ → Bool → Episode → Life → Life
save_read i test changed life =
    if test
    then record life { row = save_over changed life.row; reads = set life.reads i changed }
    else life

-- An event whose statement does not select the row changes nothing, nor does one without its copy.
unfoldable pub step : Pipeline → Event → Life → Life
unfolding outcome is_queued is_uncached reconcile_episode forget_cache show_as_backlog record_tee
step pipeline claimed life =
    if is_discovered life.row.state
    then record life { row = acquire life.row; copies = acquire life.row ∷ life.copies }
    else life
step pipeline read life = record life { reads = life.row ∷ life.reads }
step pipeline (observed i) life = elim (get_elem? life.reads i) [
  | none ↦ life
  | some copy ↦ if is_ready copy.state then record life { copies = copy ∷ life.copies } else life
]
step pipeline (leased now until) life =
    if is_queued now life.row
    then record life { row = lease until life.row; copies = lease until life.row ∷ life.copies }
    else life
step pipeline (attempted i feed processed now result) life = elim (get_elem? life.copies i) [
  | none ↦ life
  | some job ↦ record life {
    row = save_over (outcome pipeline feed processed now result job) life.row;
    copies = without_copy i life.copies;
  }
]
step pipeline (lost i) life = record life { copies = without_copy i life.copies }
step pipeline recovered life = rewrite_if (is_acquiring life.row.state) discover life
step pipeline (failed_queued at) life = rewrite_if (is_failed life.row.state) (queue_afresh at) life
step pipeline (uncached_queued at) life = rewrite_if (is_uncached life.row) (queue_at at) life
step pipeline (reconciled i feed now) life = elim (get_elem? life.reads i) [
  | none ↦ life
  | some copy ↦
      let (changed, outcome) = reconcile_episode pipeline feed now copy in
      save_read i (not (is_unchanged outcome)) changed life
]
step pipeline (forgotten i) life = elim (get_elem? life.reads i) [
  | none ↦ life
  | some copy ↦ save_read i true (forget_cache copy) life
]
step pipeline (teed i feed processed file size now) life = elim (get_elem? life.reads i) [
  | none ↦ life
  | some copy ↦
      save_read i (is_teeable processed copy)
        (record_tee pipeline feed processed file size now copy) life
]
step pipeline (shown queue_shown now) life =
    rewrite_if (is_discovered life.row.state || is_ready life.row.state)
      (show_as_backlog queue_shown now) life

unfoldable pub run : Pipeline → List Event → Life → Life
unfolding step
run pipeline [] life = life
run pipeline (e ∷ es) life = run pipeline es (step pipeline e life)
