-- ===== src/RegionDiff/Edges.antt =====
-- Where segments can really start and end (modules/regiondiff/diff.go, toSegmentBoundaries).
pub mod Bounds
use solstein.Base.{
  ℕ, zero, suc, ◌+◌, ◌-◌, Bool, true, false, not, ◌&&◌, ◌||◌, Option, none, some, List, ◌==◌, ltb,
  leb, if◌then◌else◌,
}
use solstein.Mp3.Frame.{Frame}
use solstein.RegionDiff.Run.{Run, clean_at}

-- The first clean frame from `i` on, at most `n` frames further.
unfoldable pub next_clean : List Frame → ℕ → ℕ → ℕ
next_clean frames zero i = i
next_clean frames (suc n) i =
    let further = next_clean frames n (i + 1) in if clean_at frames i then i else further

-- The last clean frame from `i` back, at most `n` frames before.
unfoldable pub last_clean : List Frame → ℕ → ℕ → ℕ
last_clean frames zero i = i
last_clean frames (suc n) i =
    let before = last_clean frames n (i - 1) in if clean_at frames i then i else before

abbrev first_of_run : List Frame → ℕ → ℕ → ℕ → ℕ
first_of_run frames unanchored start end =
    let first = next_clean frames (end - start) start in
    if leb unanchored (first - start) then start else first

-- The end of a run that starts at `start`; `none` drops it.
end_of_run : List Frame → ℕ → ℕ → ℕ → Option ℕ
end_of_run frames unanchored start end =
    if clean_at frames end
    then some end
    else (let last = last_clean frames (end - 1 - start) (end - 1) in
        if leb unanchored (end - last) then some end else if last == start then none else some last)

unfoldable pub to_segment_boundaries : Run → List Frame → ℕ → Option Run
unfolding end_of_run next_clean last_clean clean_at
to_segment_boundaries candidate frames unanchored =
    let end = candidate.home + candidate.length in
    let start = first_of_run frames unanchored candidate.home end in
    if start == end then none else elim (end_of_run frames unanchored start end) [
      | none ↦ none
      | some last ↦ some (record {
        home = start;
        other = candidate.other + (start - candidate.home);
        length = last - start;
      })
    ]
