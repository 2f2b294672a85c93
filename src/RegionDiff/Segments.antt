-- ===== src/RegionDiff/Segments.antt =====
-- Kept runs as kept and removed ranges of the home file, and the sanity checks
-- (modules/regiondiff/diff.go: segments, check, otherGaps).
pub mod Tiling
pub mod Checks
use solstein.Base.{
  ℕ, zero, suc, ◌+◌, ◌-◌, ◌*◌, min, Bool, true, false, not, ◌&&◌, Option, none, some, List, [], ◌∷◌,
  ◌++◌, ltb, leb, if◌then◌else◌, length, slice,
}
use solstein.Mp3.Frame.{Frame, File, total_duration}
use solstein.RegionDiff.Run.{Run, Segment, Options, Result, second}

-- The duration of the frames [start, end).
abbrev pub segment_of : List Frame → ℕ → ℕ → Segment
segment_of frames start end = record {
  start = start;
  end = end;
  duration = total_duration (slice frames start end);
}

unfoldable pub kept_segments : List Frame → List Run → List Segment
kept_segments frames [] = []
kept_segments frames (r ∷ rs) =
    segment_of frames r.home (r.home + r.length) ∷ kept_segments frames rs

-- What no kept run covers, from a position on.
unfoldable pub removed_segments : List Frame → ℕ → List Run → List Segment
removed_segments frames position [] =
    if ltb position (length frames) then segment_of frames position (length frames) ∷ [] else []
removed_segments frames position (r ∷ rs) =
    let rest = removed_segments frames (r.home + r.length) rs in
    if ltb position r.home then segment_of frames position r.home ∷ rest else rest

unfoldable pub segments : List Run → File → List Segment × List Segment
unfolding kept_segments removed_segments
segments kept file = (kept_segments file.frames kept, removed_segments file.frames 0 kept)

unfoldable pub durations : List Segment → ℕ
durations [] = 0
durations (s ∷ ss) = s.duration + durations ss

pub data Verdict : Type 0 where
  identical implausible unsupported no_shared_frames : Verdict

abbrev pub million : ℕ
million = 1000000

-- The sanity checks: what is removed, and how short the result is, in exact fractions where the
-- source divides in float64.
unfoldable pub check : Result → Options → Option Verdict
check result options =
    let removed = (result.home_duration - result.duration) * million in
    let expected = min options.expected_duration result.home_duration in
    elim result.kept [
      | [] ↦ some implausible
      | _ ∷ _ ↦
          if ltb 0 options.max_removed_share
            && ltb (options.max_removed_share * result.home_duration) removed
          then some implausible
          else if ltb 0 options.expected_duration
              && (ltb 0 options.duration_tolerance
                  && ltb (options.duration_tolerance * expected)
                      ((expected - result.duration) * million))
          then some implausible
          else none
    ]

abbrev pub min_audio_break : ℕ
min_audio_break = 5 * second

-- The gaps in the other download between the runs, of at least `min_audio_break`. A run that starts
-- before the one ahead of it ends gives a gap below zero in the source, 0 here: neither counts.
other_gaps_from : ℕ → ℕ → List Run → ℕ × ℕ
other_gaps_from frame_duration position [] = (0, 0)
other_gaps_from frame_duration position (r ∷ rs) =
    let gap = (r.other - position) * frame_duration in
    let (extra, breaks) = other_gaps_from frame_duration (r.other + r.length) rs in
    if leb min_audio_break gap then (gap + extra, suc breaks) else (extra, breaks)

unfoldable pub other_gaps : List Run → ℕ → ℕ → ℕ × ℕ
unfolding other_gaps_from
other_gaps kept frames frame_duration =
    other_gaps_from frame_duration 0 (kept ++ record { home = 0; other = frames; length = 0 } ∷ [])
