-- ===== src/Episodes/Life/Reconciled.antt =====
-- The counters of an episode that is brought in line with settings (episodes/reconcile.go).
use text.Mathlib.Text.{◌==◌ as str_eq}
use solstein.Base.{ℕ, ◌≡◌, refl, inl, inr, not, ◌&&◌, ◌||◌, if_keep, Bool-cases, arith}
use solstein.Models.{Feed, Episode, failed, is_failed, is_ready}
use solstein.Episodes.Outcome.{Pipeline, processes, recipe, failed_recipe, prepares}
use solstein.Episodes.Reconcile.{
  ReconcileOutcome, reconcile_episode, restart, record_settings, reconcile_file, clear_file,
}
use solstein.Episodes.Life.Sound.{IsSound, at_state, to_state, State-failed}

restart-IsSound :
    (pipeline : Pipeline) (feed : Feed) (e : Episode) → IsSound (restart pipeline feed e)
unfolding restart
restart-IsSound pipeline feed e = elim (Bool-cases (e.backlog || not (prepares pipeline feed))) [
  | inl back ↦ rw back refl
  | inr new ↦ rw new (record {
    few = omega arith;
    all_failed = refl;
    visible = refl;
    after_failure = λ t eq. absurd (cc eq);
  })
]

settings-IsSound :
    (pipeline : Pipeline) (feed : Feed) (now : ℕ) (e : Episode)
    → e.state ≡ failed
    → IsSound e
    → IsSound (record_settings pipeline feed now e).0
unfolding record_settings
settings-IsSound pipeline feed now e eq is =
    to_state (record_settings pipeline feed now e).0 {s = failed} eq (λ held.
      let late = at_state e eq is held in
      record { few = late.few; over = λ all. ground (arith, late.over all) })

file-IsSound :
    (pipeline : Pipeline) (feed : Feed) (e : Episode)
    → IsSound e
    → IsSound (reconcile_file pipeline feed e).0
unfolding reconcile_file clear_file
file-IsSound pipeline feed e is =
    let P = λ (r : Episode × ReconcileOutcome). IsSound r.0 in
    if_keep P (str_eq e.prepared_with "")
      (if_keep P (not (processes pipeline feed) || not (str_eq e.process_note "")) is is)
      (if_keep P (str_eq e.prepared_with (recipe pipeline feed)) is is)

pub reconcile-IsSound :
    (pipeline : Pipeline) (feed : Feed) (now : ℕ) (e : Episode)
    → IsSound e
    → IsSound (reconcile_episode pipeline feed now e).0
unfolding reconcile_episode
reconcile-IsSound pipeline feed now e is = elim (Bool-cases (is_failed e.state)) [
  | inl late ↦
      elim (Bool-cases
        (str_eq e.prepared_with (failed_recipe pipeline feed) || str_eq e.prepared_with "")) [
          | inl same ↦
              rw (late, same) (settings-IsSound pipeline feed now e (State-failed e.state late) is)
          | inr changed ↦ rw (late, changed) (restart-IsSound pipeline feed e)
        ]
  | inr early ↦ elim (Bool-cases (not (str_eq e.cache_file "") && is_ready e.state)) [
    | inl file ↦ rw (early, file) (file-IsSound pipeline feed e is)
    | inr kept ↦ rw (early, kept) is
  ]
]
