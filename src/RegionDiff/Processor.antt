-- ===== src/RegionDiff/Processor.antt =====
-- Region diff as a processor of episodes: its settings for a feed and the exits it compares
-- (modules/regiondiff/processor.go). The exits module is an interface of the source: whether exits can
-- all have a tunnel, and the country that an exit comes out in, none where that is not known.
pub mod Countries
pub mod Fetch
pub mod Finish
use Prim.Native.String.{String}
use text.Mathlib.Text.{◌==◌ as str_eq}
use solstein.Base.{
  ℕ, ◌+◌, ◌*◌, ◌/◌, ◌^◌, max, Bool, true, false, not, ◌&&◌, ◌||◌, Option, none, some, List, [], ◌∷◌,
  ◌++◌, if◌then◌else◌,
}
use solstein.Models.{Feed}
use solstein.RegionDiff.Run.{Options}

pub record ProcessorOptions : Type 0 where
  pub exits : String × String
  pub fallback_exits : List String
  pub enabled : Bool
  pub hide_on_failure : Bool
  pub pair_downloads : String
  pub diff : Options
  pub locator : Option (String → Option String)
  pub budgeter : Option (List String → Bool)

unfoldable pub is_listed : List String → String → Bool
is_listed [] name = false
is_listed (n ∷ names) name = str_eq n name || is_listed names name

-- Why the exits can't be used.
pub data Refused : Type 0 where
  unnamed : Refused
  listed_twice : String → Refused

unfoldable pub check_exits : List String → List String → Option Refused
unfolding is_listed
check_exits before [] = none
check_exits before (exit ∷ exits) =
    let rest = check_exits (exit ∷ before) exits in
    if str_eq exit ""
    then some unnamed
    else if is_listed before exit
    then some (listed_twice exit)
    else rest

abbrev pub all_exits : ProcessorOptions → List String
all_exits options = options.exits.0 ∷ options.exits.1 ∷ options.fallback_exits

-- Whether attempts are made one at a time, or why there is no processor.
pub data NewProcessor : Type 0 where
  refuse : Refused → NewProcessor
  accept : Bool → NewProcessor

unfoldable pub new_processor : ProcessorOptions → NewProcessor
unfolding check_exits
new_processor options = elim (check_exits [] (all_exits options)) [
  | some why ↦ refuse why
  | none ↦ elim options.budgeter [
    | none ↦ accept false
    | some exits_fit ↦ accept (not (exits_fit (all_exits options)))
  ]
]

unfoldable pub downloads_in_turn : ProcessorOptions → String × String → Bool
downloads_in_turn options pair =
    if str_eq options.pair_downloads "in_turn"
    then true
    else if str_eq options.pair_downloads "together"
    then false
    else elim options.budgeter [
      | none ↦ false
      | some exits_fit ↦ not (exits_fit (pair.0 ∷ pair.1 ∷ []))
    ]

-- A feed's switch, or else the global one.
abbrev switch : String → Bool → Bool
switch own global = if str_eq own "on" then true else if str_eq own "off" then false else global

unfoldable pub handles : ProcessorOptions → Feed → Bool
handles options feed = switch feed.region_diff options.enabled

unfoldable pub hide_on_failure : ProcessorOptions → Feed → Bool
hide_on_failure options feed =
    if not (str_eq feed.region_diff_on_failure "")
    then str_eq feed.region_diff_on_failure "hide"
    else options.hide_on_failure

unfoldable pub compares_by_audio : ProcessorOptions → Feed → Bool
compares_by_audio options feed =
    switch feed.region_diff_compare_by_audio options.diff.compare_by_audio

unfoldable pub removes_repeats : ProcessorOptions → Feed → Bool
removes_repeats options feed =
    switch feed.region_diff_remove_repeated_ads options.diff.remove_repeated_ads

unfoldable pub trims_markers : ProcessorOptions → Feed → Bool
trims_markers options feed =
    switch feed.region_diff_trim_break_markers options.diff.trim_break_markers

unfoldable pub options_for : ProcessorOptions → Feed → ℕ → Options
unfolding compares_by_audio removes_repeats trims_markers
options_for options feed expected = record options.diff {
  expected_duration = expected;
  trim_break_markers = trims_markers options feed;
  compare_by_audio = compares_by_audio options feed;
  remove_repeated_ads = removes_repeats options feed;
}

abbrev pair_of : String × String → List String → String × String
pair_of pair (a ∷ b ∷ []) = (a, b)
pair_of pair exits = pair

unfoldable pub outside : String × String → List String → List String
outside pair [] = []
outside pair (exit ∷ exits) =
    if not (str_eq exit pair.0) && not (str_eq exit pair.1)
    then exit ∷ outside pair exits
    else outside pair exits

-- The feed's pair, and the fallbacks that are not part of it.
unfoldable pub exits_for : ProcessorOptions → Feed → (String × String) × List String
unfolding outside
exits_for options feed =
    let pair = pair_of options.exits feed.region_diff_exits in
    (pair, outside pair options.fallback_exits)

abbrev pub batch_size : ℕ
batch_size = 3

-- The number of episodes to prepare together, none when the exits have a tunnel each.
unfoldable pub batch_size_of : ProcessorOptions → Feed → Option ℕ
unfolding exits_for
batch_size_of options feed =
    let pair = (exits_for options feed).0 in
    elim options.budgeter [
      | none ↦ none
      | some exits_fit ↦ if exits_fit (pair.0 ∷ pair.1 ∷ []) then none else some batch_size
    ]

-- Whether an exit is known to come out in a country.
abbrev pub is_in : (String → Option String) → String → String → Bool
is_in country_of country exit = elim (country_of exit) [ none ↦ false | some c ↦ str_eq c country ]

unfoldable pub elsewhere : (String → Option String) → String → List String → List String
elsewhere country_of country [] = []
elsewhere country_of country (exit ∷ exits) =
    if is_in country_of country exit
    then elsewhere country_of country exits
    else exit ∷ elsewhere country_of country exits

-- The home exit with the first that is elsewhere, and the rest of those; none where there is no such.
unfoldable pub in_different_countries :
    ProcessorOptions → String × String → List String → Option ((String × String) × List String)
unfolding elsewhere
in_different_countries options pair fallbacks = elim options.locator [
  | none ↦ some (pair, fallbacks)
  | some country_of ↦ elim (country_of pair.0) [
    | none ↦ some (pair, fallbacks)
    | some home ↦ elim (elsewhere country_of home (pair.1 ∷ fallbacks)) [
      | [] ↦ none
      | partner ∷ left ↦ some ((pair.0, partner), left)
    ]
  ]
]

-- A mebibyte a second, and half a minute.
abbrev pub fallback_min_rate : ℕ
fallback_min_rate = 2 ^ 20

unfoldable pub fallback_timeout : ℕ → ℕ
fallback_timeout size = max (size * 1000000000 / fallback_min_rate) (30 * 1000000000)
