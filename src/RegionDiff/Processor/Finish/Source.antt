-- ===== src/RegionDiff/Processor/Finish/Source.antt =====
-- Where the audio that is published comes from (modules/regiondiff/processor.go).
use Prim.Native.String.{String}
use solstein.Base.{
  ℕ, ◌≡◌, refl, subst, inl, inr, Bool, true, not, ◌&&◌, Option, some, some-injective, List, [], ◌∷◌,
  leb, if◌then◌else◌, All, Bool-cases, Option-cases,
}
use solstein.RegionDiff.Run.{Options, Result}
use solstein.RegionDiff.Segments.{Verdict}
use solstein.RegionDiff.Processor.Fetch.{
  closed, Log, Download, World, Checked, fetch, Partner, fetch_partner, audio_duration, incomplete,
  recheck,
}
use solstein.RegionDiff.Processor.Finish.{
  is_identical, Compared, compare_fallbacks, first_comparison,
}

module _ (world : World) where
  -- The pipeline answered a download through the exit with it.
  abbrev pub IsFrom : String → Download → Type 0
  IsFrom exit download =
      (log : Log) × (fresh : Bool) × (world.respond log exit fresh ≡ some download)

  recheck-IsFrom :
      (expected other : ℕ) (exit : String) (checked : Checked) (log : Log)
      → IsFrom exit checked.download
      → IsFrom exit (recheck world expected exit other checked log).0.download
  unfolding recheck
  recheck-IsFrom expected other exit checked log from =
      elim (Bool-cases (not (incomplete checked.duration expected other))) [
        | inl whole ↦ rw whole from
        | inr short ↦ rw short (elim (Option-cases (world.respond log exit true)) [
          | inl failed ↦ rw failed from
          | inr (again, got) ↦
              rw got
                (elim (Bool-cases (
                  incomplete (audio_duration again.data_bytes) expected other
                  && leb (audio_duration again.data_bytes) checked.duration)) [
                    | inl worse ↦ rw worse from
                    | inr better ↦ rw better (log, true, got)
                  ])
        ])
      ]

module _ (world : World) (compare : Options → List ℕ → List ℕ → Result × Option Verdict) where
  -- A comparison of the home download with one from an exit that `P` holds of.
  pub record Stands (P : String → Type 0) (options : Options) (home : Checked) (c : Compared)
      : Type 0 where
    pub from : IsFrom world c.exit c.against.download
    pub exit : P c.exit
    pub compared :
        (c.result, c.verdict)
        ≡ compare options home.download.data_bytes c.against.download.data_bytes

  module _ (P : String → Type 0) where
    pub compare_fallbacks-Stands :
        (options : Options) (fresh : Bool) (home : Checked) (left : List String) (c : Compared)
        (log : Log)
        → All P left
        → Stands P options home c
        → Stands P options home (compare_fallbacks world compare options fresh home left c log).0
    unfolding compare_fallbacks
    compare_fallbacks-Stands options fresh home [] c log all is = is
    compare_fallbacks-Stands options fresh home (exit ∷ left) c log (p, all) is =
        let log1 = closed c.exit ∷ log in
        let after = (fetch world exit fresh log1).1 in
        elim (Bool-cases (not (is_identical c.verdict))) [
          | inl apart ↦ rw apart is
          | inr same ↦ elim (Bool-cases (world.stopped after)) [
            | inl stop ↦ rw (same, stop) is
            | inr go ↦ elim (Option-cases (world.respond log1 exit fresh)) [
              | inl failed ↦
                  rw (same, go, failed)
                    (compare_fallbacks-Stands options fresh home left c
                      (if world.timed_out after then closed exit ∷ after else after) all is)
              | inr (download, got) ↦
                  let first : Checked = record {
                    download = download;
                    duration = audio_duration download.data_bytes;
                  } in
                  let next =
                    recheck world options.expected_duration exit home.duration first after in
                  let come_to =
                    compare options home.download.data_bytes next.0.download.data_bytes in
                  rw (same, go, got)
                    (compare_fallbacks-Stands options fresh home left
                      (record {
                        exit = exit;
                        against = next.0;
                        result = come_to.0;
                        verdict = come_to.1;
                      })
                      next.1 all
                      (record {
                        from =
                            recheck-IsFrom world options.expected_duration home.duration exit first
                              after (log1, fresh, got);
                        exit = p;
                        compared = refl;
                      }))
            ]
          ]
        ]

    pub fetch_partner-IsFrom :
        (fresh : Bool) (exits : List String) (log : Log) (partner : Partner)
        → All P exits
        → (fetch_partner world fresh exits log).0 ≡ some partner
        → IsFrom world partner.exit partner.download × P partner.exit × All P partner.left
    unfolding fetch_partner
    fetch_partner-IsFrom fresh [] log partner all h = absurd (cc h)
    fetch_partner-IsFrom fresh (exit ∷ exits) log partner (p, all) h =
        let after = (fetch world exit fresh log).1 in
        elim (Option-cases (world.respond log exit fresh)) [
          | inr (download, got) ↦
              let found : Partner = record { download = download; exit = exit; left = exits } in
              subst (λ (q : Partner). IsFrom world q.exit q.download × P q.exit × All P q.left)
                (some-injective found partner (rw got at h)) ((log, fresh, got), p, all)
          | inl failed ↦ elim (Bool-cases (world.stopped after)) [
            | inl stop ↦ absurd (cc (rw (failed, stop) at h))
            | inr go ↦ fetch_partner-IsFrom fresh exits after partner all (rw (failed, go) at h)
          ]
        ]

    pub first_comparison-Stands :
        (options : Options) (fresh : Bool) (home_exit : String) (home : Download)
        (partner : Partner) (log : Log)
        → IsFrom world home_exit home
        → IsFrom world partner.exit partner.download
        → P partner.exit
        → let (first, compared, after) =
            first_comparison world compare options fresh home_exit home partner log in
          IsFrom world home_exit first.download × Stands P options first compared
    unfolding first_comparison
    first_comparison-Stands options fresh home_exit home partner log from from' p =
        let home_time = audio_duration home.data_bytes in
        let other_time = audio_duration partner.download.data_bytes in
        let first : Checked = record { download = home; duration = home_time } in
        let again = recheck world options.expected_duration home_exit other_time first log in
        let other : Checked = record { download = partner.download; duration = other_time } in
        (
          recheck-IsFrom world options.expected_duration other_time home_exit first log from,
          record {
            from =
                recheck-IsFrom world options.expected_duration again.0.duration partner.exit other
                  again.1 from';
            exit = p;
            compared = refl;
          },
        )
