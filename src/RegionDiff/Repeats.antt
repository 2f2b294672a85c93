-- ===== src/RegionDiff/Repeats.antt =====
-- Removing copies of an ad that was removed elsewhere (modules/regiondiff/diff.go, removeRepeats).
pub mod Leftovers
pub mod Kept
use solstein.Base.{
  ℕ, zero, suc, ◌+◌, ◌-◌, ◌/◌, Bool, true, false, not, ◌&&◌, ◌||◌, Option, none, some, List, [],
  ◌∷◌, ◌++◌, ◌==◌, ltb, leb, if◌then◌else◌, length, slice, bytes_equal,
}
use solstein.Mp3.Frame.{File}
use solstein.RegionDiff.Run.{Run, clean_at, min_repeated_ad, bytes_at}
use solstein.RegionDiff.Align.{mix, mix_basis}

-- Which download a piece is of: the source's pointer to the file.
pub data Source : Type 0 where
  home other : Source

pub record Piece : Type 0 where
  pub source : Source
  pub start : ℕ
  pub end : ℕ
  pub hash : ℕ

-- The whole pieces of [i, i + n) that are long enough; `start` is the last clean frame, if any.
unfoldable pub pieces_from : Source → File → List ℕ → ℕ → ℕ → ℕ → Option ℕ → List Piece
pieces_from source file hashes shortest zero i start = []
pieces_from source file hashes shortest (suc n) i start =
    let open_on = pieces_from source file hashes shortest n (i + 1) start in
    let clean_on = pieces_from source file hashes shortest n (i + 1) (some i) in
    if not (clean_at file.frames i) then open_on else elim start [
      | none ↦ clean_on
      | some s ↦
          if leb shortest (i - s)
          then record {
            source = source;
            start = s;
            end = i;
            hash = mix mix_basis (slice hashes s i);
          }
            ∷ clean_on
          else clean_on
    ]

-- The whole pieces between two positions, the second one's boundary included.
pieces : Source → File → List ℕ → ℕ → ℕ → ℕ → List Piece
pieces source file hashes shortest from to =
    pieces_from source file hashes shortest (to + 1 - from) from none

-- The pieces of either download that no kept run covers.
ads_from : File → File → List ℕ → List ℕ → ℕ → ℕ → ℕ → List Run → List Piece
ads_from home_file other_file home_hashes other_hashes shortest h o [] = []
ads_from home_file other_file home_hashes other_hashes shortest h o (r ∷ rs) =
    let rest =
      ads_from home_file other_file home_hashes other_hashes shortest (r.home + r.length)
        (r.other + r.length) rs in
    (if ltb h r.home then pieces home home_file home_hashes shortest h r.home else [])
    ++ ((if ltb o r.other then pieces other other_file other_hashes shortest o r.other else [])
        ++ rest)

-- The frames of a piece and those of another, one by one.
same_frames : File → File → ℕ → ℕ → ℕ → Bool
same_frames a b zero i j = true
same_frames a b (suc n) i j =
    bytes_equal (bytes_at a i) (bytes_at b j) && same_frames a b n (i + 1) (j + 1)

abbrev file_of : File → File → Source → File
file_of home_file other_file home = home_file
file_of home_file other_file other = other_file

same : File → File → Piece → Piece → Bool
same home_file other_file a b =
    (a.end - a.start == b.end - b.start)
    && same_frames (file_of home_file other_file a.source) (file_of home_file other_file b.source)
        (a.end - a.start) a.start b.start

-- Whether a piece is a copy of one of the ads with its hash.
is_copy : File → File → List Piece → Piece → Bool
is_copy home_file other_file [] p = false
is_copy home_file other_file (ad ∷ ads) p =
    (ad.hash == p.hash && same home_file other_file p ad) || is_copy home_file other_file ads p

pub copies : File → File → List Piece → List Piece → List Run
copies home_file other_file ads [] = []
copies home_file other_file ads (p ∷ ps) =
    let rest = copies home_file other_file ads ps in
    if is_copy home_file other_file ads p
    then record { home = p.start; other = 0; length = p.end - p.start } ∷ rest
    else rest

-- What is left of a run around the pieces cut out of it, where it is long enough.
pub leftovers : ℕ → Run → ℕ → List Run → List Run
leftovers minimum candidate start [] =
    let end = candidate.home + candidate.length in
    if leb minimum (end - start)
    then record {
      home = start;
      other = candidate.other + start - candidate.home;
      length = end - start;
    }
      ∷ []
    else []
leftovers minimum candidate start (piece ∷ cut) =
    let rest = leftovers minimum candidate (piece.home + piece.length) cut in
    if leb minimum (piece.home - start)
    then record {
      home = start;
      other = candidate.other + start - candidate.home;
      length = piece.home - start;
    }
      ∷ rest
    else rest

-- The loop over the kept runs.
unfoldable pub cut_copies :
    File → File → List ℕ → List Piece → ℕ → ℕ → List Run → List Run × List Run
unfolding copies is_copy same same_frames leftovers pieces pieces_from
cut_copies home_file other_file hashes ads shortest minimum [] = ([], [])
cut_copies home_file other_file hashes ads shortest minimum (candidate ∷ kept) =
    let cut =
      copies home_file other_file ads (
        pieces home home_file hashes shortest candidate.home (candidate.home + candidate.length)) in
    let (result, repeats) = cut_copies home_file other_file hashes ads shortest minimum kept in
    elim cut [
      | [] ↦ (candidate ∷ result, repeats)
      | piece ∷ more ↦ (
        leftovers minimum candidate candidate.home (piece ∷ more) ++ result,
        piece ∷ (more ++ repeats),
      )
    ]

-- With no ads to look for, the runs are kept as they are.
with_ads : List Run → File → File → List ℕ → List Piece → ℕ → ℕ → List Run × List Run
unfolding cut_copies
with_ads kept home_file other_file hashes [] shortest minimum = (kept, [])
with_ads kept home_file other_file hashes (ad ∷ ads) shortest minimum =
    cut_copies home_file other_file hashes (ad ∷ ads) shortest minimum kept

unfoldable pub remove_repeats :
    List Run → File → File → List ℕ → List ℕ → ℕ → ℕ → List Run × List Run
unfolding with_ads ads_from
remove_repeats kept home_file other_file home_hashes other_hashes minimum frame_duration =
    let shortest = min_repeated_ad / frame_duration in
    let sentinel : Run = record {
      home = length home_file.frames;
      other = length other_file.frames;
      length = 0;
    } in
    with_ads kept home_file other_file home_hashes
      (ads_from home_file other_file home_hashes other_hashes shortest 0 0 (kept ++ sentinel ∷ []))
      shortest minimum
