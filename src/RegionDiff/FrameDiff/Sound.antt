-- ===== src/RegionDiff/FrameDiff/Sound.antt =====
-- The runs through the steps of the comparison (modules/regiondiff/diff.go, frameDiff).
use solstein.Base.{
  ℕ, suc, ◌+◌, ◌≡◌, refl, ap, subst, inl, inr, Bool, true, false, List, [], ◌∷◌, map, leb,
  if◌then◌else◌, length, Bool-cases, Option-cases, All, arith,
}
use solstein.Mp3.Frame.{Frame, File, frame_bytes}
use solstein.RegionDiff.Run.{Run, Options, InOrder, IsShared}
use solstein.RegionDiff.Align.{frame_hashes, align, verify}
use solstein.RegionDiff.Align.Order.{align-InOrder}
use solstein.RegionDiff.Align.Verified.{verify-IsShared, verify-InOrder, InOrder-lower}
use solstein.RegionDiff.Edges.{to_segment_boundaries}
use solstein.RegionDiff.Edges.Bounds.{to_segment_boundaries-IsTrimmed}
use solstein.RegionDiff.Repeats.{remove_repeats}
use solstein.RegionDiff.Repeats.Kept.{remove_repeats-kept}
use solstein.RegionDiff.Repeats.Leftovers.{IsPart, IsPart-IsShared}
use solstein.RegionDiff.Markers.{trim_markers}
use solstein.RegionDiff.Markers.Kept.{trim_markers-kept}
use solstein.RegionDiff.FrameDiff.{frame_duration_of, long_enough, minimum_frames, edit}

-- Runs that are shared, in order and inside both downloads.
abbrev pub IsSound : File → File → List Run → Type 0
IsSound home other kept =
    InOrder 0 0 (length home.frames) (length other.frames) kept × All (IsShared home other) kept

pub long_enough-IsSound :
    (home other : File) (minimum unanchored h o a b : ℕ) (rs : List Run)
    → InOrder h o a b rs
    → All (IsShared home other) rs
    → InOrder h o a b (long_enough home.frames minimum unanchored rs)
      × All (IsShared home other) (long_enough home.frames minimum unanchored rs)
unfolding long_enough
long_enough-IsSound home other minimum unanchored h o a b [] k sh = (k, sh)
long_enough-IsSound home other minimum unanchored h o a b (r ∷ rs) (p, q, k) (s, sh) =
    let (order, shared) =
      long_enough-IsSound home other minimum unanchored (r.home + r.length) (r.other + r.length) a b
        rs k sh in
    let rest = long_enough home.frames minimum unanchored rs in
    let lower =
      InOrder-lower (r.home + r.length) (r.other + r.length) h o a b rest (omega arith)
        (omega arith) order in
    elim (Option-cases (to_segment_boundaries r home.frames unanchored)) [
      | inl dropped ↦ rw (dropped, long_enough) (lower, shared)
      | inr (trimmed, found) ↦
          let is = to_segment_boundaries-IsTrimmed home.frames unanchored r found in
          let part : IsPart r trimmed = record {
            starts = is.starts;
            ends = is.ends;
            aligned = is.aligned;
          } in
          elim (Bool-cases (leb minimum trimmed.length)) [
            | inl long ↦
                rw (found, long, long_enough)
                  (
                    (
                      omega (arith, is.starts),
                      omega (arith, is.starts, is.aligned),
                      InOrder-lower (r.home + r.length) (r.other + r.length)
                          (trimmed.home + trimmed.length) (trimmed.other + trimmed.length) a b rest
                          (omega (arith, is.ends)) (omega (arith, is.ends, is.aligned)) order,
                    ),
                    (IsPart-IsShared home other r trimmed part s, shared),
                  )
            | inr short ↦ rw (found, short, long_enough) (lower, shared)
          ]
    ]

choose-IsSound :
    (home other : File) (test : Bool) (x y : List Run × List Run)
    → IsSound home other x.0
    → IsSound home other y.0
    → IsSound home other (if test then x else y).0
choose-IsSound home other true x y h k = h
choose-IsSound home other false x y h k = k

pub edit-IsSound :
    (hash : List ℕ → ℕ) (visits : ℕ → List ℕ) (home other : File) (options : Options)
    (kept : List Run)
    → IsSound home other kept
    → IsSound home other (edit hash visits home other options kept).0
unfolding edit
edit-IsSound hash visits home other options kept sound =
    let fd = frame_duration_of home in
    let least = minimum_frames options fd in
    let cut =
      remove_repeats kept home other (frame_hashes hash home) (frame_hashes hash other) least fd in
    let whole : List Run × List Run = (kept, []) in
    let shown = (if options.remove_repeated_ads then cut else whole).0 in
    let shown-sound : IsSound home other shown =
      choose-IsSound home other options.remove_repeated_ads cut whole
        (remove_repeats-kept home other (frame_hashes hash home) (frame_hashes hash other) least fd
          0 0 (length home.frames) (length other.frames) kept (omega arith) sound.0 sound.1)
        sound in
    choose-IsSound home other options.trim_break_markers (trim_markers visits shown home fd)
      (shown, [])
      (trim_markers-kept home other visits fd 0 0 (length home.frames) (length other.frames) shown
        shown-sound.0 shown-sound.1)
      shown-sound

length-map : (f : Frame → ℕ) (xs : List Frame) → length (map f xs) ≡ length xs
length-map f [] = refl
length-map f (x ∷ xs) = ap suc (length-map f xs)

pub runs-IsSound :
    (hash : List ℕ → ℕ) (home other : File)
    → IsSound home other
        (verify home other (align (frame_hashes hash home) (frame_hashes hash other)))
runs-IsSound hash home other =
    let hh = frame_hashes hash home in
    let oh = frame_hashes hash other in
    let a : length hh ≡ length home.frames =
      unfold frame_hashes in length-map (λ f. hash (frame_bytes home f)) home.frames in
    let b : length oh ≡ length other.frames =
      unfold frame_hashes in length-map (λ f. hash (frame_bytes other f)) other.frames in
    (
      verify-InOrder home other 0 0 (length home.frames) (length other.frames) (align hh oh) (
          subst (λ n. InOrder 0 0 (length home.frames) n (align hh oh)) b
            (subst (λ n. InOrder 0 0 n (length oh) (align hh oh)) a (align-InOrder hh oh))),
      verify-IsShared home other (align hh oh),
    )
