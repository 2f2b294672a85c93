-- ===== src/Episodes/Status/Queue.antt =====
-- The actions that the feed's page offers, and what they come to (episodes/status.go).
use text.Mathlib.Text.{◌==◌ as str_eq}
use solstein.Base.{
  ℕ, ◌≡◌, ◌⊎◌, refl, inl, inr, Bool, true, false, not, ◌&&◌, ◌||◌, none, some, List, [], ◌∷◌,
  le→leb, Bool-cases, arith,
}
use solstein.Models.{Feed, Episode, State, ready, failed, is_failed}
use solstein.Episodes.Outcome.{Pipeline, prepares}
use solstein.Episodes.Store.{
  has_id, is_null, is_queued, is_uncached, update_where, queue_at, queue_afresh,
  queue_failed_episodes, queue_uncached_episodes,
}
use solstein.Episodes.Jobs.{Queued, get_episode, queue_found, queue_episode}
use solstein.Episodes.Jobs as Jobs
use solstein.Episodes.Status.{
  View, Status, view_of, status_of, is_not_cached, is_working, is_in_queue,
}
use solstein.Episodes.Jobs.Rows.{get_episode-update_where, count_lem}

-- What the page says may be tried: a failed episode, or one without its file.
abbrev pub can_queue : View → Bool
can_queue view = view.can_retry || view.can_prepare

retry_status :
    (now : ℕ) (e : Episode)
    → e.state ≡ failed
    → e.hidden ≡ false
    → status_of true false now (queue_afresh now e) ≡ (Status.queued, none)
unfolding status_of
retry_status now e late shown = rw (late, shown, le→leb now now (omega arith)) refl

uncached_status :
    (now : ℕ) (e : Episode)
    → e.state ≡ ready
    → str_eq e.cache_file "" ≡ true
    → e.hidden ≡ false
    → status_of true false now (queue_at now e) ≡ (Status.queued, none)
unfolding status_of
uncached_status now e done bare shown = rw (done, bare, shown, le→leb now now (omega arith)) refl

not_cached-ready :
    (s : State) (now : ℕ) (e : Episode)
    → e.state ≡ s
    → is_not_cached (status_of true false now e).0 ≡ true
    → (s ≡ ready) × (str_eq e.cache_file "" ≡ true)
unfolding status_of
not_cached-ready ready now e eq h = (refl, (let k = rw eq at h in ground arith))
not_cached-ready s now e eq h = absurd (let k = rw eq at h in ground arith)

State-failed : (s : State) → is_failed s ≡ true → s ≡ failed
State-failed s h = ground arith

module _ (pipeline : Pipeline) (feed : Feed) (now : ℕ) where
  -- Queued: a worker takes the row that is stored, and the page says that it waits for one.
  abbrev pub IsQueued : ℕ → Queued → Type 0
  IsQueued id result =
      (table : List Episode) × (e : Episode) × (result ≡ Jobs.queued true table)
      × (get_episode feed.id id table ≡ some e)
      × (is_queued now e ≡ true)
      × (status_of true false now e ≡ (Status.queued, none))

  failed-IsQueued :
      (id : ℕ) (e : Episode) (episodes : List Episode)
      → get_episode feed.id id episodes ≡ some e
      → e.state ≡ failed
      → e.hidden ≡ false
      → is_null e.dropped_at ≡ true
      → IsQueued id (queue_found false now e episodes)
  unfolding queue_found queue_failed_episodes is_queued
  failed-IsQueued id e episodes found late shown kept =
      let selects = λ (x : Episode). has_id (e.id ∷ []) x.id && is_failed x.state in
      let chosen : selects e ≡ true = rw late (ground arith) in
      (
        update_where selects (queue_afresh now) episodes,
        queue_afresh now e,
        rw (shown, kept, late, count_lem feed.id id selects episodes e chosen found) refl,
        get_episode-update_where feed.id id selects (queue_afresh now) episodes e
            (λ x. (refl, refl)) chosen found,
        rw (late, le→leb now now (omega arith)) refl,
        retry_status now e late shown,
      )

  uncached-IsQueued :
      (id : ℕ) (e : Episode) (episodes : List Episode)
      → get_episode feed.id id episodes ≡ some e
      → e.state ≡ ready
      → str_eq e.cache_file "" ≡ true
      → e.hidden ≡ false
      → is_null e.dropped_at ≡ true
      → IsQueued id (queue_found false now e episodes)
  unfolding queue_found queue_uncached_episodes is_queued is_uncached
  uncached-IsQueued id e episodes found done bare shown kept =
      let selects = λ (x : Episode). has_id (e.id ∷ []) x.id && is_uncached x in
      let chosen : selects e ≡ true = rw (done, bare) (ground arith) in
      (
        update_where selects (queue_at now) episodes,
        queue_at now e,
        rw (shown, kept, done, count_lem feed.id id selects episodes e chosen found) refl,
        get_episode-update_where feed.id id selects (queue_at now) episodes e (λ x. (refl, refl))
            chosen found,
        rw (done, bare, le→leb now now (omega arith)) refl,
        uncached_status now e done bare shown,
      )

  offered_of :
      (status : Status) (ready_feed kept late : Bool)
      → (((not (is_working status) && not (is_in_queue status)) && ready_feed && kept) && late
          || ((not (is_working status) && not (is_in_queue status)) && ready_feed && kept)
            && is_not_cached status)
        ≡ true
      → (ready_feed ≡ true) × (kept ≡ true) × ((late ≡ true) ⊎ (is_not_cached status ≡ true))
  offered_of status ready_feed kept late h = (
    ground arith,
    ground arith,
    elim (Bool-cases late) [
      | inl failed_before ↦ inl failed_before
      | inr other ↦ inr (ground arith)
    ],
  )

  offered_lem :
      (busy ready_feed : Bool) (e : Episode)
      → can_queue (view_of ready_feed busy now e) ≡ true
      → (busy ≡ false)
        × (ready_feed ≡ true)
        × (is_null e.dropped_at ≡ true)
        × ((is_failed e.state ≡ true) ⊎ (is_not_cached (status_of true false now e).0 ≡ true))
  unfolding view_of status_of
  offered_lem true ready_feed e h = absurd (cc h)
  offered_lem false false e h = absurd (
      cc
        (offered_of (status_of false false now e).0 false (is_null e.dropped_at) (is_failed e.state)
          h).0)
  offered_lem false true e h =
      let (prepared, kept, why) =
        offered_of (status_of true false now e).0 true (is_null e.dropped_at) (is_failed e.state)
          h in
      (refl, refl, kept, why)

  -- What the page offers for an episode that no rule hides is done.
  pub can_queue-IsQueued :
      (in_flight : List ℕ) (id : ℕ) (e : Episode) (episodes : List Episode)
      → get_episode feed.id id episodes ≡ some e
      → e.hidden ≡ false
      → can_queue (view_of (prepares pipeline feed) (has_id in_flight e.id) now e) ≡ true
      → IsQueued id (queue_episode pipeline feed in_flight now id episodes)
  unfolding queue_episode
  can_queue-IsQueued in_flight id e episodes found shown offered =
      let (idle, prepared, kept, why) =
        offered_lem (has_id in_flight e.id) (prepares pipeline feed) e offered in
      rw (prepared, found, idle)
        (elim why [
          | inl late ↦ failed-IsQueued id e episodes found (State-failed e.state late) shown kept
          | inr bare ↦
              let (done, empty) = not_cached-ready e.state now e refl bare in
              uncached-IsQueued id e episodes found done empty shown kept
        ])
