-- ===== src/Episodes/Life/Steps.antt =====
-- The counters of an episode from one event to the next (episodes/pipeline.go, episodes/reconcile.go).
use solstein.Base.{
  and_left, All-elem, All-set, not, Bool, ℕ, ◌+◌, ◌≡◌, refl, sym, ap, ◌∙◌, inl, inr, true, false,
  ◌||◌, Option, some, none, List, [], ◌∷◌, All, All-append, All-take, All-drop, get_elem?, take,
  drop, Bool-cases, Option-cases, arith,
}
use solstein.Models.{
  Episode, State, discovered, acquiring, processing, ready, failed, is_acquiring, is_failed,
  is_discovered, is_ready, forget_cache,
}
use solstein.Episodes.Outcome.{Pipeline}
use solstein.Episodes.Store.{lease, is_queued, is_uncached, queue_at, queue_afresh, is_due}
use solstein.Episodes.Life.{
  Life, Event, claimed, observed, recovered, forgotten, leased, attempted, lost, failed_queued,
  uncached_queued, reconciled, shown, read, teed, save_read, step, run, IsNew, without_copy,
}
use solstein.Episodes.Reconcile.{reconcile_episode, is_unchanged}
use solstein.Episodes.Serve.{is_teeable, record_tee}
use solstein.Episodes.Life.Teed.{tee-IsSound}
use solstein.Episodes.Life.Reconciled.{reconcile-IsSound}
use solstein.Episodes.Life.Sound.{
  IsSound, IsJob, at_state, to_state, State-failed, State-acquiring, State-discovered, State-ready,
  outcome-IsSound, left_of,
}

ready_of : (e : Episode) → is_uncached e ≡ true → is_ready e.state ≡ true
unfolding is_uncached
ready_of e h = ground arith

visible_at :
    (s : State) (e : Episode)
    → e.state ≡ s
    → (is_discovered s || is_ready s) ≡ true
    → IsSound e
    → e.withheld ≡ false
visible_at discovered e eq h is = (at_state e eq is).visible
visible_at ready e eq h is = at_state e eq is
visible_at acquiring e eq h is = absurd (cc h)
visible_at processing e eq h is = absurd (cc h)
visible_at failed e eq h is = absurd (cc h)

visible_of :
    (e : Episode)
    → (is_discovered e.state || is_ready e.state) ≡ true
    → IsSound e
    → e.withheld ≡ false
visible_of e h is = visible_at e.state e refl h is

due_some : (next : Option ℕ) (now : ℕ) → is_due next now ≡ true → (t : ℕ) × (next ≡ some t)
due_some none now h = absurd (cc h)
due_some (some t) now h = (t, refl)

no_state :
    (s : State) (now : ℕ) (e : Episode)
    → e.state ≡ s
    → is_failed s ≡ false
    → is_ready s ≡ false
    → is_queued now e ≡ true
    → ⊥
unfolding is_queued
no_state s now e eq late done h =
    let not_late = ap is_failed eq ∙ late in let not_done = ap is_ready eq ∙ done in ground arith

-- A failed episode that is queued has slow retries left; a published one has no such limit.
lease_at :
    (s : State) (now until : ℕ) (e : Episode)
    → e.state ≡ s
    → is_queued now e ≡ true
    → IsSound e
    → IsJob (lease until e)
unfolding is_queued
lease_at discovered now until e eq h is = absurd (no_state discovered now e eq refl refl h)
lease_at acquiring now until e eq h is = absurd (no_state acquiring now e eq refl refl h)
lease_at processing now until e eq h is = absurd (at_state e eq is)
lease_at ready now until e eq h is = record {
  sound = to_state (lease until e) {s = ready} eq (at_state e eq is);
  taken = rw eq refl;
  scheduled = λ h. (until, refl);
}
lease_at failed now until e eq h is = record {
  sound = to_state (lease until e) {s = failed} eq (λ held.
      let (t, next) = due_some e.next_attempt_at now (and_left _ _ h) in
      let left = left_of e t next (at_state e eq is held) in
      record { few = omega arith; over = λ all. absurd (omega arith) });
  taken = rw eq refl;
  scheduled = λ h. (until, refl);
}

-- The row and every copy are sound, and each job has an episode to work on.
pub record IsSoundLife (life : Life) : Type 0 where
  pub row : IsSound life.row
  pub copies : All IsJob life.copies
  pub reads : All IsSound life.reads

without-IsJob :
    (i : ℕ) (copies : List Episode) → All IsJob copies → All IsJob (without_copy i copies)
without-IsJob i copies all =
    All-append IsJob (take i copies) (drop (i + 1) copies) (All-take IsJob i copies all)
      (All-drop IsJob (i + 1) copies all)

ready-IsJob : (e : Episode) → is_ready e.state ≡ true → IsSound e → IsJob e
ready-IsJob e done is =
    let eq = State-ready e.state done in
    record { sound = is; taken = rw eq refl; scheduled = λ h. absurd (cc (rw eq at h)) }

save-IsSound :
    (i : ℕ) (test : Bool) (changed : Episode) (life : Life)
    → (test ≡ true → IsSound changed)
    → IsSoundLife life
    → IsSoundLife (save_read i test changed life)
save-IsSound i false changed life sound is = is
save-IsSound i true changed life sound is = record {
  row = sound refl;
  copies = is.copies;
  reads = All-set IsSound life.reads i changed (sound refl) is.reads;
}

step-IsSound :
    (pipeline : Pipeline) (event : Event) (life : Life)
    → IsSoundLife life
    → IsSoundLife (step pipeline event life)
unfolding step
step-IsSound pipeline claimed life is = elim (Bool-cases (is_discovered life.row.state)) [
  | inr other ↦ rw other is
  | inl found ↦
      let waits = at_state life.row (State-discovered life.row.state found) is.row in
      rw found (record {
        row = waits;
        copies =
            (record { sound = waits; taken = refl; scheduled = λ h. absurd (cc h) }, is.copies);
        reads = is.reads;
      })
]
step-IsSound pipeline read life is = record {
  row = is.row;
  copies = is.copies;
  reads = (is.row, is.reads);
}
step-IsSound pipeline (observed i) life is = elim (Option-cases (get_elem? life.reads i)) [
  | inl missing ↦ rw (missing, step) is
  | inr (copy, found) ↦ elim (Bool-cases (is_ready copy.state)) [
    | inr other ↦ rw (found, step, other) is
    | inl done ↦
        rw (found, step, done)
          (record {
            row = is.row;
            copies = (
              ready-IsJob copy done (All-elem IsSound life.reads i copy is.reads found),
              is.copies,
            );
            reads = is.reads;
          })
  ]
]
step-IsSound pipeline recovered life is = elim (Bool-cases (is_acquiring life.row.state)) [
  | inr other ↦ rw other is
  | inl found ↦ rw found (record {
    row = at_state life.row (State-acquiring life.row.state found) is.row;
    copies = is.copies;
    reads = is.reads;
  })
]
step-IsSound pipeline (leased now until) life is = elim (Bool-cases (is_queued now life.row)) [
  | inr other ↦ rw other is
  | inl found ↦
      let job = lease_at life.row.state now until life.row refl found is.row in
      rw found (record { row = job.sound; copies = (job, is.copies); reads = is.reads })
]
step-IsSound pipeline (attempted i feed processed now result) life is =
    elim (Option-cases (get_elem? life.copies i)) [
      | inl missing ↦ rw (missing, step) is
      | inr (job, found) ↦
          rw (found, step)
            (record {
              row =
                  outcome-IsSound pipeline feed processed now result job
                    (All-elem IsJob life.copies i job is.copies found);
              copies = without-IsJob i life.copies is.copies;
              reads = is.reads;
            })
    ]
step-IsSound pipeline (lost i) life is = record {
  row = is.row;
  copies = without-IsJob i life.copies is.copies;
  reads = is.reads;
}
step-IsSound pipeline (failed_queued t) life is = elim (Bool-cases (is_failed life.row.state)) [
  | inr other ↦ rw other is
  | inl found ↦ rw found (record {
    row =
        to_state (queue_afresh t life.row) {s = failed} (State-failed life.row.state found)
          (λ held. record { few = omega arith; over = λ all. absurd (omega (arith, all)) });
    copies = is.copies;
    reads = is.reads;
  })
]
step-IsSound pipeline (uncached_queued t) life is = elim (Bool-cases (is_uncached life.row)) [
  | inr other ↦ rw other is
  | inl found ↦
      let eq = State-ready life.row.state (ready_of life.row found) in
      rw found (record {
        row = to_state (queue_at t life.row) {s = ready} eq (at_state life.row eq is.row);
        copies = is.copies;
        reads = is.reads;
      })
]
step-IsSound pipeline (reconciled i feed now) life is =
    elim (Option-cases (get_elem? life.reads i)) [
      | inl missing ↦ rw (missing, step) is
      | inr (copy, found) ↦
          rw (found, step)
            (save-IsSound i (not (is_unchanged (reconcile_episode pipeline feed now copy).1))
              (reconcile_episode pipeline feed now copy).0 life
              (λ _.
                reconcile-IsSound pipeline feed now copy
                  (All-elem IsSound life.reads i copy is.reads found))
              is)
    ]
step-IsSound pipeline (forgotten i) life is = elim (Option-cases (get_elem? life.reads i)) [
  | inl missing ↦ rw (missing, step) is
  | inr (copy, found) ↦
      rw (found, step)
        (save-IsSound i true (forget_cache copy) life
          (λ _. All-elem IsSound life.reads i copy is.reads found) is)
]
step-IsSound pipeline (teed i feed processed file size now) life is =
    elim (Option-cases (get_elem? life.reads i)) [
      | inl missing ↦ rw (missing, step) is
      | inr (copy, found) ↦
          rw (found, step)
            (save-IsSound i (is_teeable processed copy)
              (record_tee pipeline feed processed file size now copy) life
              (λ teeable.
                tee-IsSound pipeline feed processed file size now copy teeable
                  (All-elem IsSound life.reads i copy is.reads found))
              is)
    ]
step-IsSound pipeline (shown queue_shown now) life is =
    elim (Bool-cases (is_discovered life.row.state || is_ready life.row.state)) [
      | inr other ↦ rw other is
      | inl found ↦
          rw found (record {
            row = visible_of life.row found is.row;
            copies = is.copies;
            reads = is.reads;
          })
    ]

run_keeps :
    (pipeline : Pipeline) (events : List Event) (life : Life)
    → IsSoundLife life
    → IsSoundLife (run pipeline events life)
unfolding run
run_keeps pipeline [] life is = is
run_keeps pipeline (event ∷ events) life is =
    run_keeps pipeline events (step pipeline event life) (step-IsSound pipeline event life is)

new_at : (s : State) (e : Episode) → e.state ≡ s → IsNew e → IsSound e
new_at discovered e eq (h, attempts, failures, next, visible) = to_state e eq (record {
  few = omega (arith, attempts);
  all_failed = failures ∙ sym attempts;
  visible = visible;
  after_failure = λ t found. absurd (cc (next, found));
})
new_at ready e eq (h, attempts, failures, next, visible) = to_state e eq visible
new_at acquiring e eq new = absurd (cc (rw eq at new.0))
new_at processing e eq new = absurd (cc (rw eq at new.0))
new_at failed e eq new = absurd (cc (rw eq at new.0))

-- From a row that a poll stored, through any sequence of the events of this model, copies that were
-- read long before being saved whole: the row and every copy of it that was read or given to a job keep
-- their counters in step. While an episode waits for its first preparation or is in it, it is not
-- withheld, each of its attempts failed, they are five at most, and a time for the next follows a
-- failure; a published one is not withheld; a withheld one has had eight slow retries at most, and none
-- is scheduled after the eighth; none is `processing`. A job's copy is not discovered, and has a time
-- for its next attempt where it is failed.
pub run-IsSoundLife :
    (pipeline : Pipeline) (events : List Event) (e : Episode)
    → IsNew e
    → IsSoundLife (run pipeline events (record { row = e; copies = []; reads = [] }))
run-IsSoundLife pipeline events e new =
    run_keeps pipeline events (record { row = e; copies = []; reads = [] })
      (record { row = new_at e.state e refl new; copies = tt; reads = tt })
