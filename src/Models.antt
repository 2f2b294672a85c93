-- ===== src/Models.antt =====
-- What is stored of a feed and its episodes (models/feed.go, models/episode.go): the fields that the
-- modelled operations read or write. An identifier is the number that its sixteen bytes spell, times
-- are nanoseconds, and counters are unbounded, as each is raised by one at a time.
pub mod Examples
use Prim.Native.String.{String}
use solstein.Base.{ℕ, Bool, true, false, Option, none, List}

pub data State : Type 0 where
  discovered acquiring processing ready failed : State

abbrev pub is_acquiring : State → Bool
is_acquiring acquiring = true
is_acquiring discovered = false
is_acquiring processing = false
is_acquiring ready = false
is_acquiring failed = false

abbrev pub is_failed : State → Bool
is_failed failed = true
is_failed discovered = false
is_failed acquiring = false
is_failed processing = false
is_failed ready = false

abbrev pub is_discovered : State → Bool
is_discovered discovered = true
is_discovered failed = false
is_discovered acquiring = false
is_discovered processing = false
is_discovered ready = false

abbrev pub is_ready : State → Bool
is_ready ready = true
is_ready discovered = false
is_ready failed = false
is_ready acquiring = false
is_ready processing = false

pub record Feed : Type 0 where
  pub id : ℕ
  pub exit : String
  pub delivery_mode : String
  pub region_diff : String
  pub region_diff_exits : List String
  pub region_diff_on_failure : String
  pub region_diff_trim_break_markers : String
  pub region_diff_compare_by_audio : String
  pub region_diff_remove_repeated_ads : String
  pub serve_dropped : String
  pub delete_dropped : String

pub record Episode : Type 0 where
  pub id : ℕ
  pub feed_id : ℕ
  pub created_at : ℕ
  pub published_at : Option ℕ
  pub backlog : Bool
  pub state : State
  pub attempts : ℕ
  pub failed_attempts : ℕ
  pub next_attempt_at : Option ℕ
  pub late_retries : ℕ
  pub last_error : String
  pub withheld : Bool
  pub hidden : Bool
  pub dropped_at : Option ℕ
  pub serve : String
  pub serve_warning : String
  pub process_note : String
  pub prepared_with : String
  pub cache_file : String
  pub cache_size : ℕ
  pub cache_seconds : ℕ
  pub cached_at : Option ℕ
  pub fully_served_at : Option ℕ

unfoldable pub forget_cache : Episode → Episode
forget_cache episode = record episode {
  cache_file = "";
  cache_size = 0;
  cache_seconds = 0;
  cached_at = none;
  fully_served_at = none;
}
