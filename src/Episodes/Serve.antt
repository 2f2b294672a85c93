-- ===== src/Episodes/Serve.antt =====
-- A file that was cached while a client was streaming it (episodes/serve.go, Serve and stream); the
-- server has the pipeline. The streaming itself is not modelled.
use Prim.Native.String.{String}
use solstein.Base.{ℕ, Bool, not, ◌&&◌, ◌||◌, some, if◌then◌else◌}
use solstein.Models.{Feed, Episode, ready, is_failed, is_ready}
use solstein.Episodes.Outcome.{Pipeline, recipe}

-- A withheld episode is not served at all; the other conditions of a request are left open.
abbrev pub is_teeable : Bool → Episode → Bool
is_teeable processed episode =
    not episode.withheld
    && (is_failed episode.state || (not processed && (episode.backlog || is_ready episode.state)))

-- A download that failed recovers this way; in a processed feed it stays failed.
abbrev pub recover : Bool → Episode → Episode
recover processed episode =
    if is_failed episode.state && not processed
    then record episode { state = ready; last_error = "" }
    else episode

abbrev pub with_recipe : Pipeline → Feed → Episode → Episode
with_recipe pipeline feed episode =
    if is_ready episode.state
    then record episode { prepared_with = recipe pipeline feed }
    else episode

unfoldable pub record_tee : Pipeline → Feed → Bool → String → ℕ → ℕ → Episode → Episode
record_tee pipeline feed processed file size now episode = with_recipe pipeline feed (
    recover processed (record episode {
      cache_file = file;
      cache_size = size;
      cache_seconds = 0;
      cached_at = some now;
    }))
