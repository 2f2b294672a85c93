-- ===== src/RegionDiff/Processor/Finish/Made.antt =====
-- What the audio that is published is made of (modules/regiondiff/processor.go).
use Prim.Native.String.{String}
use solstein.Base.{ℕ, ◌≡◌, ◌⊎◌, Bool, Option, none, some, List, ◌∷◌, if◌then◌else◌}
use solstein.RegionDiff.Run.{Options, Result}
use solstein.RegionDiff.Segments.{Verdict, identical}
use solstein.RegionDiff.Processor.{ProcessorOptions, downloads_in_turn}
use solstein.RegionDiff.Processor.Fetch.{closed, Log, Download, World, fetch}
use solstein.RegionDiff.Processor.Finish.{Processed}
use solstein.RegionDiff.Processor.Finish.Source.{IsFrom}

module _ (world : World) (compare : Options → List ℕ → List ℕ → Result × Option Verdict) where
  -- The audio is the home download's where it and the other are found identical, or what comparing them
  -- made of it.
  pub record IsMade (P : String → Type 0) (options : Options) (home_exit : String)
      (result : Processed) : Type 0 where
    pub home : Download
    pub exit : String
    pub other : Download
    pub home_from : IsFrom world home_exit home
    pub other_from : IsFrom world exit other
    pub compared_with : P exit
    pub content : result.content_type ≡ home.content_type
    pub audio :
        ((compare options home.data_bytes other.data_bytes).1 ≡ some identical)
          × (result.audio ≡ home.data_bytes)
        ⊎ ((compare options home.data_bytes other.data_bytes).1 ≡ none)
          × (result.audio ≡ (compare options home.data_bytes other.data_bytes).0.output)

  -- The log in which the partner is looked for.
  abbrev log_between : ProcessorOptions → Bool → String × String → Log → Log
  log_between options fresh pair log =
      let after = (fetch world pair.0 fresh log).1 in
      if downloads_in_turn options pair then closed pair.0 ∷ after else after
