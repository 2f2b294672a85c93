-- ===== src/RegionDiff/Tests.antt =====
-- Runs of the comparison on small downloads, and the theorems at them.
mod Published
use solstein.Base.{◌+◌, ◌≡◌, refl, subst, ◌↔◌, some, none, List, [], ◌∷◌, length, arith, All}
use solstein.Mp3.Header.{
  duration, main_data_offset, parse_header, size, same_stream, side_info_size,
}
use solstein.Mp3.Tags.{id3v2_length, has_id3v1}
use solstein.Mp3.Parse.{ok, parse}
use solstein.Mp3.Parse.Layout.{frames_size}
use solstein.Mp3.Frame.{
  Frame, frame_bytes, file_duration, main_data_size, main_data_begin, is_info_frame, total_duration,
}
use solstein.RegionDiff.Run.{Run, Segment, InOrder, IsShared, clean_at}
use solstein.RegionDiff.Align.{mix, align, verify, frame_hashes}
use solstein.RegionDiff.Align.Order.{align-InOrder}
use solstein.RegionDiff.Align.Verified.{verify-IsShared}
use solstein.RegionDiff.Edges.{to_segment_boundaries}
use solstein.RegionDiff.Edges.Bounds.{IsTrimmed, to_segment_boundaries-IsTrimmed}
use solstein.RegionDiff.Segments.{segments, durations, check}
use solstein.RegionDiff.Segments.Tiling.{times_in, segments_tile, durations-segments}
use solstein.RegionDiff.Write.{needs_at, carriers, write}
use solstein.RegionDiff.Write.Carriers.{Carry, carriers-Carry}
use solstein.RegionDiff.Write.Size.{kept_size, silent_frames, length-write}
use solstein.RegionDiff.Repeats.{remove_repeats}
use solstein.RegionDiff.Repeats.Kept.{remove_repeats-kept}
use solstein.RegionDiff.Markers.{trim_markers}
use solstein.RegionDiff.Markers.Kept.{trim_markers-kept}
use solstein.RegionDiff.FrameDiff.{frame_diff}
use solstein.RegionDiff.FrameDiff.Cuts.{IsCut, frame_diff-IsCut}
use solstein.RegionDiff.Examples.{
  bytes_of, frames_of, show, home, other, options, hash, visits, result, shared, home_hashes,
  other_hashes,
}

cut_out : result.output ≡ bytes_of (show 1 18)
unfolding frame_diff verify align frame_hashes mix frame_bytes segments to_segment_boundaries
    duration check remove_repeats file_duration durations write
cut_out = refl

found : frame_diff hash visits home other options ≡ (result, none)
unfolding frame_diff verify align frame_hashes mix frame_bytes segments to_segment_boundaries
    duration check remove_repeats file_duration durations
found = refl

frame_diff-IsCut_example : IsCut home other options result
frame_diff-IsCut_example = frame_diff-IsCut hash visits home other options found

align-InOrder_example : InOrder 0 0 20 19 (align home_hashes other_hashes)
unfolding frame_hashes
align-InOrder_example = align-InOrder home_hashes other_hashes

shared_InOrder : InOrder 0 0 20 19 (shared ∷ [])
shared_InOrder = ground arith

shared_found : verify home other (shared ∷ []) ≡ shared ∷ []
unfolding verify frame_bytes
shared_found = refl

verify-IsShared_example : All (IsShared home other) (verify home other (shared ∷ []))
verify-IsShared_example = verify-IsShared home other (shared ∷ [])

shared_verified : All (IsShared home other) (verify home other (shared ∷ []))
shared_verified = verify-IsShared home other (shared ∷ [])

shared_IsShared : All (IsShared home other) (shared ∷ [])
shared_IsShared = subst (All (IsShared home other)) shared_found shared_verified

-- The fourth frame borrows from the third.
abbrev borrowing : List Frame
borrowing = frames_of 0 ((0, 1) ∷ (0, 2) ∷ (0, 3) ∷ (5, 4) ∷ (0, 5) ∷ [])

abbrev borrowing_run : Run
borrowing_run = record { home = 3; other = 7; length = 2 }

abbrev trimmed_run : Run
trimmed_run = record { home = 4; other = 8; length = 1 }

to_segment_boundaries-IsTrimmed_example : IsTrimmed borrowing 100 borrowing_run trimmed_run
unfolding to_segment_boundaries clean_at
to_segment_boundaries-IsTrimmed_example =
    to_segment_boundaries-IsTrimmed borrowing 100 borrowing_run refl

carriers_found : carriers borrowing 0 3 ≡ 1
unfolding carriers main_data_size main_data_offset
carriers_found = refl

carriers-Carry_example : Carry borrowing (needs_at borrowing 3) 0 3 (carriers borrowing 0 3)
carriers-Carry_example = carriers-Carry borrowing 0 3 (omega arith) (omega arith)

segments_tile_example :
    times_in 5 (segments (shared ∷ []) home).0 + times_in 5 (segments (shared ∷ []) home).1 ≡ 1
segments_tile_example = segments_tile home (shared ∷ []) 19 5 shared_InOrder (omega arith)

durations-segments_example :
    durations (segments (shared ∷ []) home).0 + durations (segments (shared ∷ []) home).1
    ≡ file_duration home
durations-segments_example = durations-segments home (shared ∷ []) 19 shared_InOrder

remove_repeats-kept_example :
    let left = (remove_repeats (shared ∷ []) home other home_hashes other_hashes 1 24000000).0 in
    InOrder 0 0 20 19 left × All (IsShared home other) left
remove_repeats-kept_example =
    remove_repeats-kept home other home_hashes other_hashes 1 24000000 0 0 20 19 (shared ∷ [])
      (omega arith) shared_InOrder shared_IsShared

trim_markers-kept_example :
    let left = (trim_markers visits (shared ∷ []) home 24000000).0 in
    InOrder 0 0 20 19 left × All (IsShared home other) left
trim_markers-kept_example =
    trim_markers-kept home other visits 24000000 0 0 20 19 (shared ∷ []) shared_InOrder
      shared_IsShared

abbrev two_kept : List Segment
two_kept = record { start = 2; end = 20; duration = 0 } ∷ []

home_parsed : parse home.bytes ≡ some (ok home)
unfolding parse id3v2_length has_id3v1 parse_header size same_stream is_info_frame side_info_size
    main_data_begin
home_parsed = refl

length-write_example :
    (length (write home two_kept).0
      ≡ length home.id3v2
        + kept_size home two_kept
        + frames_size (silent_frames home 0 two_kept)
        + length home.id3v1)
    × ((write home two_kept).1 ≡ total_duration (silent_frames home 0 two_kept))
length-write_example = length-write home.bytes home two_kept home_parsed
