-- ===== src/Episodes/Tests.antt =====
-- Runs of an episode through the pipeline, and the theorems at them.
mod Cache
use Prim.Native.String.{String}
use solstein.Base.{
  ℕ, ◌+◌, ◌*◌, ◌≡◌, ◌<◌, refl, true, false, Bool, Option, some, none, List, [], ◌∷◌, arith, pos,
}
use solstein.Models.{Episode, failed, ready}
use solstein.Models.Examples.{new_episode, feed}
use solstein.Episodes.Outcome.{
  Pipeline, Processor, Failure, Attempted, prepared, attempt_failed, outcome, record_prepared,
  record_failed, record_late, give_up, retry, hides_failures, minutes, queue_lease, prepares,
  recipe, failed_recipe, processes, processor_recipe,
}
use solstein.Episodes.Store.{
  acquire, lease, claim_next_episode, is_waiting, is_older, take_first, update_where,
  prepared_feeds, is_prepared_feed, feed_by_id, has_id,
}
use solstein.Episodes.Store.Claims.{IsClaim, claim_next_episode-IsClaim}
use solstein.Episodes.Status.{status_of, view_of, given_up, withheld}
use solstein.Episodes.Status.Queue.{IsQueued, can_queue, can_queue-IsQueued}
use solstein.Episodes.Jobs.{queue_episode, get_episode}
use solstein.Episodes.Reconcile.{reconcile_episode}
use solstein.Episodes.Reconcile.Settled.{IsCurrent, reconcile-IsCurrent}
use solstein.Episodes.Life.{
  Life, Event, teed, read, claimed, attempted, leased, recovered, reconciled, lost, run, step,
}
use solstein.Episodes.Serve.{record_tee}
use solstein.Episodes.Life.Steps.{IsSoundLife, run-IsSoundLife}
use solstein.Episodes.Schedule.{first_attempts, slow_attempts, took}
use solstein.Episodes.Schedule.First.{Ends, first_attempts-Ends}
use solstein.Episodes.Schedule.Slow.{IsWithheld, IsOver, slow_attempts-IsOver}
use solstein.Episodes.ContentRange.{parse_content_range, print_content_range, print_int, print_from}
use solstein.Episodes.ContentRange.RoundTrip.{parse_content_range-print}

abbrev pipeline : Pipeline
pipeline = record {
  processor = some (record {
    name = "region diff";
    handles = λ f. true;
    recipe = λ f. "v5";
    hide_on_failure = λ f. true;
  });
  default_delivery_mode = "stream";
  default_exit = "direct";
  local_time = λ t. "";
}

abbrev broken_host : Attempted
broken_host = attempt_failed (record { text = "no answer"; permanent = false; gone = none })

abbrev bad_file : Attempted
bad_file = attempt_failed (record { text = "no MP3"; permanent = true; gone = none })

-- A failure, a retry, a failure for good, and a slow retry that fails too.
abbrev events : List Event
events =
    claimed
    ∷ attempted 0 feed true 10 broken_host
    ∷ claimed
    ∷ attempted 0 feed true (minutes 2) bad_file
    ∷ leased (minutes 62) (minutes 242)
    ∷ read
    ∷ attempted 0 feed true (minutes 63) broken_host
    ∷ []

last_row : Episode
last_row = (run pipeline events (record { row = new_episode; copies = []; reads = [] })).row

slow_retry : (last_row.late_retries ≡ 1) × (last_row.next_attempt_at ≡ some (minutes 423))
unfolding last_row run step outcome record_failed give_up record_late retry
slow_retry = (refl, refl)

run-IsSoundLife_example :
    IsSoundLife (run pipeline events (record { row = new_episode; copies = []; reads = [] }))
run-IsSoundLife_example = run-IsSoundLife pipeline events new_episode (refl, refl, refl, refl, refl)

abbrev six_failures : List (ℕ × Attempted × ℕ)
six_failures =
    (30, broken_host, 1)
    ∷ (30, broken_host, 2)
    ∷ (30, broken_host, 3)
    ∷ (30, broken_host, 4)
    ∷ (30, broken_host, 5)
    ∷ (30, broken_host, 6)
    ∷ []

first_attempts-Ends_example :
    Ends (30 + took six_failures) 0 (first_attempts pipeline feed true six_failures 30 new_episode)
first_attempts-Ends_example =
    first_attempts-Ends pipeline feed true six_failures 30 30 new_episode refl (omega arith)
      (omega arith) (omega arith)

abbrev withheld_episode : Episode
withheld_episode = record new_episode {
  state = failed;
  withheld = true;
  late_retries = 6;
  next_attempt_at = some 50;
}

slow_attempts-IsOver_example :
    IsOver
      (slow_attempts pipeline feed true
        ((30, broken_host, 1) ∷ (30, broken_host, 2) ∷ [])
        40
        withheld_episode).0
slow_attempts-IsOver_example =
    slow_attempts-IsOver pipeline feed true ((30, broken_host, 1) ∷ (30, broken_host, 2) ∷ []) 40 50
      6 withheld_episode
      (record { state = refl; withheld = refl; hidden = refl; late_retries = refl }) refl
      (omega arith) (omega arith)

-- A failed episode whose slow retries are over is tried again from the page.
abbrev given_up_episode : Episode
given_up_episode = record withheld_episode { late_retries = 8; next_attempt_at = none }

can_queue-IsQueued_example :
    IsQueued pipeline feed 99 1 (queue_episode pipeline feed (3 ∷ []) 99 1 (given_up_episode ∷ []))
unfolding get_episode view_of status_of prepares recipe processes processor_recipe has_id
can_queue-IsQueued_example =
    can_queue-IsQueued pipeline feed 99 (3 ∷ []) 1 given_up_episode (given_up_episode ∷ []) refl
      refl refl

reconcile-IsCurrent_example :
    IsCurrent pipeline feed given_up_episode (reconcile_episode pipeline feed 99 given_up_episode).0
reconcile-IsCurrent_example = reconcile-IsCurrent pipeline feed 99 given_up_episode

abbrev newer_episode : Episode
newer_episode = record new_episode { id = 2; published_at = some 200 }

claim_next_episode-IsClaim_example :
    IsClaim
      (is_waiting (feed ∷ []) "stream" [] 300)
      (newer_episode ∷ new_episode ∷ [])
      (acquire new_episode)
      (newer_episode ∷ acquire new_episode ∷ [])
unfolding claim_next_episode is_waiting is_older take_first update_where prepared_feeds
    is_prepared_feed feed_by_id has_id
claim_next_episode-IsClaim_example =
    claim_next_episode-IsClaim (feed ∷ []) "stream" [] 300 (newer_episode ∷ new_episode ∷ [])
      (newer_episode ∷ acquire new_episode ∷ []) (acquire new_episode) refl

parse_content_range-print_example :
    parse_content_range (print_content_range 1500 2999 3000) ≡ some (pos 1500, pos 3000)
parse_content_range-print_example =
    parse_content_range-print 1500 2999 3000 (omega arith) (omega arith)

-- A withheld episode is not streamed, nor claimed as a new one.
abbrev streamed : List Event
streamed =
    read
    ∷ claimed
    ∷ attempted 0 feed false 10 bad_file
    ∷ read
    ∷ teed 0 feed false "episode.mp3" 3 20
    ∷ []

streamed_row : Episode
streamed_row =
    (run pipeline streamed (record { row = withheld_episode; copies = []; reads = [] })).row

not_streamed : streamed_row ≡ withheld_episode
unfolding streamed_row run step
not_streamed = refl

recovered_row :
    (record_tee pipeline feed false "episode.mp3" 3 20
      (record withheld_episode { withheld = false })).state
    ≡ ready
unfolding record_tee
recovered_row = refl
