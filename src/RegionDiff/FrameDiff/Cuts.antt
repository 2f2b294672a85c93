-- ===== src/RegionDiff/FrameDiff/Cuts.antt =====
-- What a comparison by frames publishes (modules/regiondiff/diff.go, frameDiff).
use solstein.Base.{
  ℕ, ◌+◌, ◌≡◌, refl, ◌≢◌, ap, subst, subst₂, ◌⊎◌, inl, inr, true, false, not, ◌&&◌, ◌||◌, Option,
  none, List, [], ◌∷◌, ◌==◌, length, Bool-cases, Option-cases, All,
}
use solstein.Mp3.Frame.{File, file_duration}
use solstein.RegionDiff.Run.{Run, Options, Result, InOrder, IsShared}
use solstein.RegionDiff.Align.{frame_hashes, align, verify}
use solstein.RegionDiff.Segments.{Verdict, segments, durations, check}
use solstein.RegionDiff.Segments.Checks.{IsPlausible, check_iff}
use solstein.RegionDiff.Write.{write}
use solstein.RegionDiff.FrameDiff.{is_empty, total_length, edit, conclude, compare_kept, frame_diff}
use solstein.RegionDiff.FrameDiff.Sound.{IsSound, long_enough-IsSound, edit-IsSound, runs-IsSound}

-- What is published: segments of runs that both downloads share, in order and apart, that pass the
-- checks, written out with their silent frames, or the home download whole where nothing goes.
pub record IsCut (home other : File) (options : Options) (result : Result) : Type 0 where
  pub kept : List Run
  pub order : InOrder 0 0 (length home.frames) (length other.frames) kept
  pub shared : All (IsShared home other) kept
  pub kept_are : result.kept ≡ (segments kept home).0
  pub removed_are : result.removed ≡ (segments kept home).1
  pub plausible : IsPlausible options (file_duration home) (durations result.kept) result.kept
  pub output :
      ((result.removed ≡ [])
        × (result.output ≡ home.bytes)
        × (result.duration ≡ durations result.kept))
      ⊎ ((result.removed ≢ [])
          × (result.output ≡ (write home result.kept).0)
          × (result.duration ≡ durations result.kept + (write home result.kept).1))

empty-nil : {A : Type 0} (xs : List A) → is_empty xs ≡ true → xs ≡ []
empty-nil [] e = refl
empty-nil (x ∷ xs) e = absurd (cc)

full-ne-nil : {A : Type 0} (xs : List A) → is_empty xs ≡ false → xs ≢ []
full-ne-nil [] e = absurd (cc)
full-ne-nil (x ∷ xs) e = λ p. cc

conclude-IsCut :
    (home other : File) (options : Options) (given : Result) (kept : List Run) {result : Result}
    → IsSound home other kept
    → given.kept ≡ (segments kept home).0
    → given.removed ≡ (segments kept home).1
    → given.home_duration ≡ file_duration home
    → given.duration ≡ durations given.kept
    → conclude home options given ≡ (result, none)
    → IsCut home other options result
unfolding conclude
conclude-IsCut home other options given kept {result} sound k r hd d e =
    elim (Option-cases (check given options)) [
      | inr (verdict, failed) ↦
          absurd (cc (ap (λ (p : Result × Option Verdict). p.1) (rw (failed, conclude) at e)))
      | inl passed ↦
          let plausible =
            subst₂ (λ a b. IsPlausible options a b given.kept) hd d
              ((check_iff given options).0 passed) in
          elim (Bool-cases (is_empty given.removed)) [
            | inl nothing ↦
                let same =
                  ap (λ (p : Result × Option Verdict). p.0) (rw (passed, nothing, conclude) at e) in
                subst (IsCut home other options) same (record {
                  kept = kept;
                  order = sound.0;
                  shared = sound.1;
                  kept_are = k;
                  removed_are = r;
                  plausible = plausible;
                  output = inl (empty-nil given.removed nothing, refl, d);
                })
            | inr something ↦
                let same =
                  ap (λ (p : Result × Option Verdict). p.0)
                    (rw (passed, something, conclude) at e) in
                subst (IsCut home other options) same (record {
                  kept = kept;
                  order = sound.0;
                  shared = sound.1;
                  kept_are = k;
                  removed_are = r;
                  plausible = plausible;
                  output = inr (
                    full-ne-nil given.removed something,
                    refl,
                    ap (λ n. n + (write home given.kept).1) d,
                  );
                })
          ]
    ]

compare_kept-IsCut :
    (hash : List ℕ → ℕ) (visits : ℕ → List ℕ) (home other : File) (options : Options)
    (kept : List Run) {result : Result}
    → IsSound home other kept
    → compare_kept hash visits home other options kept ≡ (result, none)
    → IsCut home other options result
unfolding compare_kept
compare_kept-IsCut hash visits home other options kept {result} sound e =
    let edits = edit hash visits home other options kept in
    elim (Bool-cases
      (is_empty (segments kept home).1 && total_length kept == length other.frames)) [
        | inl same ↦
            absurd (cc (ap (λ (p : Result × Option Verdict). p.1) (rw (same, compare_kept) at e)))
        | inr differ ↦ elim (Bool-cases (not (is_empty edits.1) || not (is_empty edits.2))) [
          | inl changed ↦
              conclude-IsCut home other options _ edits.0
                (edit-IsSound hash visits home other options kept sound) refl refl refl refl
                (rw (differ, changed, compare_kept) at e)
          | inr unchanged ↦
              conclude-IsCut home other options _ kept sound refl refl refl refl
                (rw (differ, unchanged, compare_kept) at e)
        ]
      ]

-- A comparison by frames that succeeds publishes a cut of the home download: what it keeps is byte
-- for byte in the other download too, frame by frame and in order, and it passes the checks.
pub frame_diff-IsCut :
    (hash : List ℕ → ℕ) (visits : ℕ → List ℕ) (home other : File) (options : Options)
    {result : Result}
    → frame_diff hash visits home other options ≡ (result, none)
    → IsCut home other options result
unfolding frame_diff
frame_diff-IsCut hash visits home other options {result} e =
    let runs = verify home other (align (frame_hashes hash home) (frame_hashes hash other)) in
    let sound = runs-IsSound hash home other in
    elim (Bool-cases (is_empty runs)) [
      | inl nothing ↦
          absurd (cc (ap (λ (p : Result × Option Verdict). p.1) (rw (nothing, frame_diff) at e)))
      | inr something ↦
          compare_kept-IsCut hash visits home other options _
            (long_enough-IsSound home other _ _ 0 0 (length home.frames) (length other.frames) runs
              sound.0 sound.1)
            (rw (something, frame_diff) at e)
    ]
