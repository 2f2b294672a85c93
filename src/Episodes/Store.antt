-- ===== src/Episodes/Store.antt =====
-- The statements by which workers claim episodes and clients queue them (database/pipeline.go). The
-- table of episodes is a list; what a statement's clauses select is written out. A statement that
-- fails is left out, as is the column updated_at.
pub mod Claims
use Prim.Native.String.{String}
use text.Mathlib.Text.{◌==◌ as str_eq}
use solstein.Base.{
  ℕ, zero, suc, ◌+◌, Bool, true, false, not, ◌&&◌, ◌||◌, Option, none, some, List, [], ◌∷◌, ◌==◌,
  ltb, leb, if◌then◌else◌, length, map,
}
use solstein.Models.{
  Feed, Episode, State, discovered, acquiring, is_acquiring, is_failed, is_discovered, is_ready,
}

abbrev pub is_null : Option ℕ → Bool
is_null none = true
is_null (some t) = false

-- `column <= now`, which no NULL satisfies.
abbrev pub is_due : Option ℕ → ℕ → Bool
is_due none now = false
is_due (some t) now = leb t now

unfoldable pub feed_by_id : List Feed → ℕ → Option Feed
feed_by_id [] id = none
feed_by_id (feed ∷ feeds) id =
    let rest = feed_by_id feeds id in if feed.id == id then some feed else rest

unfoldable pub has_id : List ℕ → ℕ → Bool
has_id [] id = false
has_id (i ∷ ids) id = i == id || has_id ids id

-- The mode is cache, set on the feed or inherited, or the feed is one of those processed.
unfoldable pub is_prepared_feed : String → List ℕ → Feed → Bool
unfolding has_id
is_prepared_feed default_mode processed_feeds feed =
    str_eq feed.delivery_mode "cache"
    || (str_eq default_mode "cache" && str_eq feed.delivery_mode "")
    || has_id processed_feeds feed.id

unfoldable pub prepared_feeds : List Feed → String → List ℕ → Episode → Bool
unfolding feed_by_id is_prepared_feed
prepared_feeds feeds default_mode processed_feeds episode =
    not episode.hidden && is_null episode.dropped_at && elim (feed_by_id feeds episode.feed_id) [
      | none ↦ false
      | some feed ↦ is_prepared_feed default_mode processed_feeds feed
    ]

-- An order by a column that may be NULL, where NULL is last.
abbrev pub null_last : Option ℕ → Option ℕ → (ℕ → ℕ → Bool) → Bool → Bool
null_last none none before tie = tie
null_last none (some b) before tie = false
null_last (some a) none before tie = true
null_last (some a) (some b) before tie = if a == b then tie else before a b

-- published_at IS NULL, published_at, created_at.
unfoldable pub is_older : Episode → Episode → Bool
is_older a b = null_last a.published_at b.published_at ltb (ltb a.created_at b.created_at)

-- next_attempt_at, published_at IS NULL, published_at DESC, created_at DESC.
unfoldable pub is_sooner : Episode → Episode → Bool
is_sooner a b =
    null_last a.next_attempt_at b.next_attempt_at ltb
      (null_last a.published_at b.published_at (λ s t. ltb t s) (ltb b.created_at a.created_at))

-- The first of the selected rows in an order: the best so far gives way to one that comes before it.
unfoldable pub take_first :
    (Episode → Bool) → (Episode → Episode → Bool) → List Episode → Option Episode
take_first selects before [] = none
take_first selects before (e ∷ es) =
    let rest = take_first selects before es in
    if selects e
    then elim rest [ none ↦ some e | some best ↦ if before best e then some best else some e ]
    else rest

-- The rows with an identifier that satisfy a condition are updated.
unfoldable pub update_where : (Episode → Bool) → (Episode → Episode) → List Episode → List Episode
update_where selects change [] = []
update_where selects change (e ∷ es) =
    (if selects e then change e else e) ∷ update_where selects change es

unfoldable pub is_waiting : List Feed → String → List ℕ → ℕ → Episode → Bool
unfolding prepared_feeds
is_waiting feeds default_mode processed_feeds now episode =
    prepared_feeds feeds default_mode processed_feeds episode
    && is_discovered episode.state
    && (is_null episode.next_attempt_at || is_due episode.next_attempt_at now)

abbrev pub acquire : Episode → Episode
acquire episode = record episode { state = acquiring }

-- The episode claimed, with the table after it; none is ErrNoWork.
unfoldable pub claim_next_episode :
    List Feed → String → List ℕ → ℕ → List Episode → Option (Episode × List Episode)
unfolding is_waiting is_older take_first update_where
claim_next_episode feeds default_mode processed_feeds now episodes =
    elim (take_first (is_waiting feeds default_mode processed_feeds now) is_older episodes) [
      | none ↦ none
      | some e ↦ some (
        acquire e,
        update_where (λ row. row.id == e.id && is_discovered row.state) acquire episodes,
      )
    ]

-- Due for a background attempt: failed, or published without its file.
unfoldable pub is_queued : ℕ → Episode → Bool
is_queued now episode =
    is_due episode.next_attempt_at now
    && (is_failed episode.state || (is_ready episode.state && str_eq episode.cache_file ""))

abbrev pub lease : ℕ → Episode → Episode
lease until episode = record episode { next_attempt_at = some until }

unfoldable pub claim_queued_episode :
    List Feed → String → List ℕ → ℕ → ℕ → List Episode → Option (Episode × List Episode)
unfolding prepared_feeds is_queued is_sooner take_first update_where
claim_queued_episode feeds default_mode processed_feeds now until episodes =
    elim (take_first (λ e. prepared_feeds feeds default_mode processed_feeds e && is_queued now e)
      is_sooner episodes) [
        | none ↦ none
        | some e ↦ some (
          lease until e,
          update_where (λ row. row.id == e.id && is_due row.next_attempt_at now) (lease until)
              episodes,
        )
      ]

-- A discovered episode that a client asks for is claimed whatever its retry time.
unfoldable pub claim_episode : ℕ → List Episode → Option (Episode × List Episode)
unfolding take_first update_where
claim_episode id episodes =
    let selects = λ (e : Episode). e.id == id && is_discovered e.state in
    elim (take_first selects (λ a b. false) episodes) [
      | none ↦ none
      | some e ↦ some (acquire e, update_where selects acquire episodes)
    ]

abbrev pub discover : Episode → Episode
discover episode = record episode { state = discovered }

unfoldable pub reset_interrupted_episodes : List Episode → List Episode
unfolding update_where
reset_interrupted_episodes = update_where (λ e. is_acquiring e.state) discover

unfoldable pub count_where : (Episode → Bool) → List Episode → ℕ
count_where selects [] = 0
count_where selects (e ∷ es) =
    if selects e then suc (count_where selects es) else count_where selects es

abbrev pub queue_at : ℕ → Episode → Episode
queue_at at episode = record episode { next_attempt_at = some at }

abbrev pub queue_afresh : ℕ → Episode → Episode
queue_afresh at episode = record episode { next_attempt_at = some at; late_retries = 0 }

unfoldable pub is_uncached : Episode → Bool
is_uncached episode = is_ready episode.state && str_eq episode.cache_file ""

-- How many rows are queued, and the table after it.
unfoldable pub queue_failed_episodes : List ℕ → ℕ → List Episode → ℕ × List Episode
unfolding has_id update_where count_where
queue_failed_episodes ids at episodes =
    let selects = λ (e : Episode). has_id ids e.id && is_failed e.state in
    (count_where selects episodes, update_where selects (queue_afresh at) episodes)

unfoldable pub queue_uncached_episodes : List ℕ → ℕ → List Episode → ℕ × List Episode
unfolding has_id update_where count_where is_uncached
queue_uncached_episodes ids at episodes =
    let selects = λ (e : Episode). has_id ids e.id && is_uncached e in
    (count_where selects episodes, update_where selects (queue_at at) episodes)

-- A saved episode leaves out the columns that only polls, rules and the serve switch write.
abbrev pub save_over : Episode → Episode → Episode
save_over episode row = record episode {
  created_at = row.created_at;
  hidden = row.hidden;
  dropped_at = row.dropped_at;
  serve = row.serve;
  serve_warning = row.serve_warning;
}

-- none is ErrEpisodeNotFound.
unfoldable pub update_episode : Episode → List Episode → Option (List Episode)
unfolding update_where count_where
update_episode episode episodes =
    let selects = λ (row : Episode). row.id == episode.id in
    if episode.id == 0
    then none
    else if count_where selects episodes == 0
    then none
    else some (update_where selects (save_over episode) episodes)
