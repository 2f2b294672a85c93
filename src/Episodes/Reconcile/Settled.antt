-- ===== src/Episodes/Reconcile/Settled.antt =====
-- What an episode's recorded settings are once it is reconciled (episodes/reconcile.go).
use Prim.Native.String.{String}
use text.Mathlib.Text.{◌==◌ as str_eq}
use text.Mathlib.TextEquality.{eq_iff}
use solstein.Base.{
  ℕ, ◌≡◌, ◌⊎◌, refl, inl, inr, Bool, true, false, not, ◌&&◌, ◌||◌, ◌==◌, Option, some, none,
  Bool-cases, if_keep, if◌then◌else◌, arith,
}
use solstein.Models.{Feed, Episode, State, discovered, ready, is_failed, is_ready}
use solstein.Episodes.Store.{is_null}
use solstein.Episodes.Outcome.{Pipeline, recipe, failed_recipe, processes, prepares}
use solstein.Episodes.Reconcile.{
  ReconcileOutcome, reconcile_episode, reconcile_file, record_settings, restart, clear_file,
}

-- A failure is recorded under the current settings, with a first slow retry where the episode is
-- withheld; a published file is recorded so, and is the one from before, which was recorded so or not
-- at all.
pub record IsCurrent (pipeline : Pipeline) (feed : Feed) (before e : Episode) : Type 0 where
  pub failure : is_failed e.state ≡ true → e.prepared_with ≡ failed_recipe pipeline feed
  pub scheduled :
      is_failed e.state ≡ true
      → (e.withheld && is_null e.next_attempt_at && e.late_retries == 0) ≡ false
  pub file :
      is_ready e.state ≡ true
      → str_eq e.cache_file "" ≡ false
      → e.prepared_with ≡ recipe pipeline feed
  pub kept :
      is_ready e.state ≡ true
      → str_eq e.cache_file "" ≡ false
      → (e.cache_file ≡ before.cache_file)
        × ((before.prepared_with ≡ recipe pipeline feed) ⊎ (before.prepared_with ≡ ""))

late_done : (s : State) → is_failed s ≡ true → is_ready s ≡ true → ⊥
late_done s late done = ground arith

not_late : (test : Bool) → is_failed (if test then ready else discovered) ≡ false
not_late true = refl
not_late false = refl

same_text : (s t : String) → str_eq s t ≡ true → s ≡ t
same_text s t = (eq_iff s t).0

now_scheduled :
    (held : Bool) (next : Option ℕ) (now late : ℕ)
    → (held && is_null (if held && is_null next && late == 0 then some now else next) && late == 0)
      ≡ false
now_scheduled true none now late = ground arith
now_scheduled true (some t) now late = refl
now_scheduled false next now late = refl

module _ (pipeline : Pipeline) (feed : Feed) where
  restart-IsCurrent : (e : Episode) → IsCurrent pipeline feed e (restart pipeline feed e)
  unfolding restart
  restart-IsCurrent e = record {
    failure = λ late. absurd (cc (not_late (e.backlog || not (prepares pipeline feed)), late));
    scheduled = λ late. refl;
    file = λ done there. absurd (cc there);
    kept = λ done there. absurd (cc there);
  }

  settings-IsCurrent :
      (now : ℕ) (e : Episode)
      → is_failed e.state ≡ true
      → (str_eq e.prepared_with (failed_recipe pipeline feed) || str_eq e.prepared_with "") ≡ true
      → IsCurrent pipeline feed e (record_settings pipeline feed now e).0
  unfolding record_settings
  settings-IsCurrent now e late same = record {
    failure = λ again. elim (Bool-cases (str_eq e.prepared_with "")) [
      | inl old ↦ rw old refl
      | inr known ↦
          rw known
            (same_text e.prepared_with (failed_recipe pipeline feed) (ground (arith, known, same)))
    ];
    scheduled = λ again. now_scheduled e.withheld e.next_attempt_at now e.late_retries;
    file = λ done there. absurd (late_done e.state late done);
    kept = λ done there. absurd (late_done e.state late done);
  }

  current :
      (before e : Episode)
      → is_ready e.state ≡ true
      → e.prepared_with ≡ recipe pipeline feed
      → e.cache_file ≡ before.cache_file
      → (before.prepared_with ≡ recipe pipeline feed) ⊎ (before.prepared_with ≡ "")
      → IsCurrent pipeline feed before e
  current before e done same file why = record {
    failure = λ late. absurd (late_done e.state late done);
    scheduled = λ late. absurd (late_done e.state late done);
    file = λ _ there. same;
    kept = λ _ there. (file, why);
  }

  clear-IsCurrent :
      (e : Episode) → is_ready e.state ≡ true → IsCurrent pipeline feed e (clear_file e)
  unfolding clear_file
  clear-IsCurrent e done = record {
    failure = λ late. absurd (late_done e.state late done);
    scheduled = λ late. absurd (late_done e.state late done);
    file = λ _ there. absurd (cc there);
    kept = λ _ there. absurd (cc there);
  }

  file-IsCurrent :
      (e : Episode)
      → is_ready e.state ≡ true
      → IsCurrent pipeline feed e (reconcile_file pipeline feed e).0
  unfolding reconcile_file
  file-IsCurrent e done =
      let cleared = clear-IsCurrent e done in
      elim (Bool-cases (str_eq e.prepared_with "")) [
        | inl old ↦ rw old (
            if_keep (λ (r : Episode × ReconcileOutcome). IsCurrent pipeline feed e r.0)
              (not (processes pipeline feed) || not (str_eq e.process_note ""))
              (current e (record e { prepared_with = recipe pipeline feed }) done refl refl
                (inr (same_text e.prepared_with "" old)))
              cleared)
        | inr known ↦ rw known (elim (Bool-cases (str_eq e.prepared_with (recipe pipeline feed))) [
          | inl same ↦
              let is = same_text e.prepared_with (recipe pipeline feed) same in
              rw same (current e e done is refl (inl is))
          | inr changed ↦ rw changed cleared
        ])
      ]

  -- A reconciled episode that is failed is recorded with the current settings, with a slow retry
  -- scheduled where it is withheld and has had none. One that is ready with a file is recorded with the
  -- current settings, and had that file before, recorded with them too or, for an old file, not at all.
  pub reconcile-IsCurrent :
      (now : ℕ) (e : Episode) → IsCurrent pipeline feed e (reconcile_episode pipeline feed now e).0
  unfolding reconcile_episode
  reconcile-IsCurrent now e = elim (Bool-cases (is_failed e.state)) [
    | inl late ↦
        elim (Bool-cases
          (str_eq e.prepared_with (failed_recipe pipeline feed) || str_eq e.prepared_with "")) [
            | inl same ↦ rw (late, same) (settings-IsCurrent now e late same)
            | inr changed ↦ rw (late, changed) (restart-IsCurrent e)
          ]
    | inr early ↦ elim (Bool-cases (not (str_eq e.cache_file "") && is_ready e.state)) [
      | inl filed ↦ rw (early, filed) (file-IsCurrent e (ground (arith, filed)))
      | inr bare ↦
          rw (early, bare)
            (record {
              failure = λ late. absurd (cc (early, late));
              scheduled = λ late. absurd (cc (early, late));
              file = λ done there. absurd (let k = rw (done, there) at bare in cc k);
              kept = λ done there. absurd (let k = rw (done, there) at bare in cc k);
            })
    ]
  ]
