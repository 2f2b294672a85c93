-- ===== src/RegionDiff/Run.antt =====
-- Runs of identical frames, segments of the home download, options and results
-- (modules/regiondiff/diff.go). Durations are nanoseconds; shares and tolerances are millionths.
use solstein.Base.{
  ℕ, ◌+◌, ◌*◌, ◌≤◌, ◌<◌, ◌≡◌, Bool, true, false, ◌||◌, none, some, List, [], ◌∷◌, ◌==◌, length,
  get_elem?,
}
use solstein.Mp3.Frame.{Frame, File, frame_bytes}

abbrev pub second : ℕ
second = 1000000000

-- home[home:home+length] equals other[other:other+length].
pub record Run : Type 0 where
  pub home : ℕ
  pub other : ℕ
  pub length : ℕ

pub record Segment : Type 0 where
  pub start : ℕ
  pub end : ℕ
  pub duration : ℕ

pub record Options : Type 0 where
  pub min_shared : ℕ
  pub max_removed_share : ℕ
  pub expected_duration : ℕ
  pub duration_tolerance : ℕ
  pub compare_by_audio : Bool
  pub trim_break_markers : Bool
  pub remove_repeated_ads : Bool

abbrev pub default_options : Options
default_options = record {
  min_shared = 2 * second;
  max_removed_share = 300000;
  expected_duration = 0;
  duration_tolerance = 50000;
  compare_by_audio = true;
  trim_break_markers = false;
  remove_repeated_ads = true;
}

pub record Result : Type 0 where
  pub output : List ℕ
  pub kept : List Segment
  pub removed : List Segment
  pub markers : List Segment
  pub repeats : List Segment
  pub home_duration : ℕ
  pub other_duration : ℕ
  pub duration : ℕ
  pub by_audio : Bool
  pub other_extra : ℕ
  pub other_breaks : ℕ

abbrev pub anchor_frames : ℕ
anchor_frames = 16

abbrev pub max_marker : ℕ
max_marker = 5 * second

abbrev pub unanchored_minimum : ℕ
unanchored_minimum = 30 * second

abbrev pub min_repeated_ad : ℕ
min_repeated_ad = 10 * second

-- A frame that borrows nothing, or a file's start or end: where a segment can start.
unfoldable pub clean_at : List Frame → ℕ → Bool
clean_at frames i =
    i == 0
    || (i == length frames
        || elim (get_elem? frames i) [ none ↦ false | some frame ↦ frame.main_data_begin == 0 ])

-- Runs in order in both downloads, none over another, between the positions given.
abbrev pub InOrder : ℕ → ℕ → ℕ → ℕ → List Run → Type 0
InOrder home other home_end other_end [] = (home ≤ home_end) × (other ≤ other_end)
InOrder home other home_end other_end (r ∷ rs) =
    (home ≤ r.home)
    × (other ≤ r.other)
    × InOrder (r.home + r.length) (r.other + r.length) home_end other_end rs

-- The bytes of a frame by its index; a slice out of range is empty.
abbrev pub bytes_at : File → ℕ → List ℕ
bytes_at file i = elim (get_elem? file.frames i) [ none ↦ [] | some frame ↦ frame_bytes file frame ]

-- The frames of a run are the same in both downloads, byte for byte.
abbrev pub IsShared : File → File → Run → Type 0
IsShared home other r =
    (k : ℕ) → k < r.length → bytes_at home (r.home + k) ≡ bytes_at other (r.other + k)
