-- ===== src/RegionDiff/Segments/Tiling.antt =====
-- The kept and removed segments together (modules/regiondiff/diff.go, segments).
use solstein.Base.{
  ℕ, ◌+◌, ◌-◌, ◌≤◌, ◌<◌, ◌≡◌, refl, ap, ◌∙◌, inl, inr, Bool, ◌&&◌, List, [], ◌∷◌, ◌++◌, ltb, leb,
  if◌then◌else◌, length, slice, take, drop, take-append-drop, drop-drop, drop-all, Bool-cases,
  ltb→lt, ltb_false→le, arith,
}
use solstein.Mp3.Frame.{Frame, File, total_duration, file_duration}
use solstein.RegionDiff.Run.{Run, Segment, InOrder}
use solstein.RegionDiff.Segments.{kept_segments, removed_segments, segments, durations}

abbrev pub covers : ℕ → Segment → Bool
covers i s = leb s.start i && ltb i s.end

-- How many of the segments a frame is in.
unfoldable pub times_in : ℕ → List Segment → ℕ
times_in i [] = 0
times_in i (s ∷ ss) = (if covers i s then 1 else 0) + times_in i ss

kept-above :
    (frames : List Frame) (i h o a b : ℕ) (rs : List Run)
    → InOrder h o a b rs
    → i < h
    → times_in i (kept_segments frames rs) ≡ 0
unfolding times_in kept_segments
kept-above frames i h o a b [] k lt = refl
kept-above frames i h o a b (r ∷ rs) (p, q, k) lt =
    ground
      (arith, kept-above frames i (r.home + r.length) (r.other + r.length) a b rs k (omega arith))

removed-above :
    (frames : List Frame) (i h o b : ℕ) (rs : List Run)
    → InOrder h o (length frames) b rs
    → i < h
    → times_in i (removed_segments frames h rs) ≡ 0
unfolding times_in removed_segments
removed-above frames i h o b [] k lt = ground arith
removed-above frames i h o b (r ∷ rs) (p, q, k) lt =
    ground
      (arith, removed-above frames i (r.home + r.length) (r.other + r.length) b rs k (omega arith))

tiled :
    (frames : List Frame) (i h o b : ℕ) (rs : List Run)
    → InOrder h o (length frames) b rs
    → h ≤ i
    → i < length frames
    → times_in i (kept_segments frames rs) + times_in i (removed_segments frames h rs) ≡ 1
unfolding times_in kept_segments removed_segments
tiled frames i h o b [] k le lt = ground arith
tiled frames i h o b (r ∷ rs) (p, q, k) le lt = elim (Bool-cases (ltb i (r.home + r.length))) [
  | inl before ↦ ground (
    arith,
    before,
    kept-above frames i (r.home + r.length) (r.other + r.length) (length frames) b rs k
        (ltb→lt _ _ before),
    removed-above frames i (r.home + r.length) (r.other + r.length) b rs k (ltb→lt _ _ before),
  )
  | inr after ↦ ground (
    arith,
    after,
    tiled frames i (r.home + r.length) (r.other + r.length) b rs k (ltb_false→le _ _ after) lt,
  )
]

-- For runs in order inside the downloads, every frame of the home download is in exactly one of the
-- kept and the removed segments.
pub segments_tile :
    (file : File) (kept : List Run) (other_end i : ℕ)
    → InOrder 0 0 (length file.frames) other_end kept
    → i < length file.frames
    → times_in i (segments kept file).0 + times_in i (segments kept file).1 ≡ 1
unfolding segments
segments_tile file kept other_end i k lt = tiled file.frames i 0 0 other_end kept k (omega arith) lt

pub total_duration-append :
    (xs ys : List Frame) → total_duration (xs ++ ys) ≡ total_duration xs + total_duration ys
total_duration-append [] ys = omega arith
total_duration-append (x ∷ xs) ys = omega (arith, total_duration-append xs ys)

-- The frames from `from` on, split at `to`.
total_duration-slice :
    (frames : List Frame) (from to : ℕ)
    → from ≤ to
    → total_duration (slice frames from to) + total_duration (drop to frames)
      ≡ total_duration (drop from frames)
total_duration-slice frames from to le =
    let rest = drop from frames in
    let e : from + (to - from) ≡ to = omega arith in
    let dropped = drop-drop (to - from) from frames ∙ ap (λ (k : ℕ). drop k frames) e in
    let split = ap (λ (l : List Frame). total_duration l) (take-append-drop (to - from) rest) in
    let sum = total_duration-append (take (to - from) rest) (drop (to - from) rest) in
    omega (arith, ap (λ (l : List Frame). total_duration l) dropped)

durations_from :
    (frames : List Frame) (h o b : ℕ) (rs : List Run)
    → InOrder h o (length frames) b rs
    → durations (kept_segments frames rs) + durations (removed_segments frames h rs)
      ≡ total_duration (drop h frames)
unfolding durations kept_segments removed_segments
durations_from frames h o b [] k = elim (Bool-cases (ltb h (length frames))) [
  | inl some' ↦ rw some' (
      omega (
        arith,
        total_duration-slice frames h (length frames) k.0,
        ap (λ (l : List Frame). total_duration l) (drop-all (length frames) frames (omega arith)),
      ))
  | inr none' ↦ rw none' (
      omega (
        arith,
        ap (λ (l : List Frame). total_duration l) (drop-all h frames (ltb_false→le _ _ none')),
      ))
]
durations_from frames h o b (r ∷ rs) (p, q, k) =
    let rest = durations_from frames (r.home + r.length) (r.other + r.length) b rs k in
    let own = total_duration-slice frames r.home (r.home + r.length) (omega arith) in
    elim (Bool-cases (ltb h r.home)) [
      | inl gap ↦ rw gap (omega (arith, rest, own, total_duration-slice frames h r.home p))
      | inr close ↦
          let e : r.home ≡ h = omega (arith, ltb_false→le _ _ close) in
          rw close (omega (arith, rest, own, ap (λ (n : ℕ). total_duration (drop n frames)) e))
    ]

-- For runs in order inside the downloads, the durations of the kept segments and those of the
-- removed ones add up to the home download's.
pub durations-segments :
    (file : File) (kept : List Run) (other_end : ℕ)
    → InOrder 0 0 (length file.frames) other_end kept
    → durations (segments kept file).0 + durations (segments kept file).1 ≡ file_duration file
unfolding segments file_duration
durations-segments file kept other_end k = durations_from file.frames 0 0 other_end kept k
