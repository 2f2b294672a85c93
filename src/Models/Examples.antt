-- ===== src/Models/Examples.antt =====
-- A new episode and its feed, for the tests (models/episode.go, models/feed.go).
use solstein.Base.{false, some, none, []}
use solstein.Models.{Feed, Episode, discovered}

abbrev pub new_episode : Episode
new_episode = record {
  id = 1;
  feed_id = 7;
  created_at = 5;
  published_at = some 100;
  backlog = false;
  state = discovered;
  attempts = 0;
  failed_attempts = 0;
  next_attempt_at = none;
  late_retries = 0;
  last_error = "";
  withheld = false;
  hidden = false;
  dropped_at = none;
  serve = "";
  serve_warning = "";
  process_note = "";
  prepared_with = "";
  cache_file = "";
  cache_size = 0;
  cache_seconds = 0;
  cached_at = none;
  fully_served_at = none;
}

abbrev pub feed : Feed
feed = record {
  id = 7;
  exit = "";
  delivery_mode = "cache";
  region_diff = "";
  region_diff_exits = [];
  region_diff_on_failure = "";
  region_diff_trim_break_markers = "";
  region_diff_compare_by_audio = "";
  region_diff_remove_repeated_ads = "";
  serve_dropped = "";
  delete_dropped = "";
}
