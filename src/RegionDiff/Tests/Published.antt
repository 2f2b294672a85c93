-- ===== src/RegionDiff/Tests/Published.antt =====
-- An episode compared through two exits, and the theorem at it.
use Prim.Native.String.{String}
use text.Mathlib.Text.{◌==◌ as str_eq}
use solstein.Base.{ℕ, true, false, Option, some, none, List, [], ◌∷◌, if◌then◌else◌}
use solstein.RegionDiff.Run.{Options, default_options, Result}
use solstein.RegionDiff.Segments.{Verdict}
use solstein.RegionDiff.FrameDiff.{no_result}
use solstein.RegionDiff.Processor.{ProcessorOptions}
use solstein.RegionDiff.Processor.Fetch.{Download, World}
use solstein.RegionDiff.Processor.Finish.{Processed}

abbrev download_of : List ℕ → Download
download_of bytes = record { data_bytes = bytes; content_type = "audio/mpeg" }

-- The Danish exit does not answer.
abbrev world : World
world = record {
  respond = λ log exit fresh.
      if str_eq exit "dk"
      then none
      else some (download_of (if str_eq exit "no" then 1 ∷ [] else 2 ∷ []));
  stopped = λ log. false;
  timed_out = λ log. false;
}

abbrev country : String → Option String
country exit = some exit

abbrev options : ProcessorOptions
options = record {
  exits = ("no", "dk");
  fallback_exits = "se" ∷ [];
  enabled = true;
  hide_on_failure = true;
  pair_downloads = "in_turn";
  diff = default_options;
  locator = some country;
  budgeter = none;
}

abbrev compare : Options → List ℕ → List ℕ → Result × Option Verdict
compare o home other = (record no_result { output = 9 ∷ [] }, none)

abbrev made : Processed
made = record { audio = 9 ∷ []; content_type = "audio/mpeg"; duration = 0 }
