-- ===== src/RegionDiff/Processor/Countries.antt =====
-- The exits that region diff compares with the home exit (modules/regiondiff/processor.go).
use Prim.Native.String.{String}
use solstein.Base.{
  ◌≡◌, refl, subst, inl, inr, false, Option, none, some, some-injective, List, [], ◌∷◌, All,
  All-map, Bool-cases, Option-cases,
}
use solstein.RegionDiff.Processor.{ProcessorOptions, is_in, elsewhere, in_different_countries}

-- Where exits can be located and the country of the home exit is known, an exit is not known to come out
-- in that country.
abbrev pub IsAbroad : ProcessorOptions → String → String → Type 0
IsAbroad options home exit = elim options.locator [
  | none ↦ Unit
  | some country_of ↦ elim (country_of home) [
    | none ↦ Unit
    | some country ↦ is_in country_of country exit ≡ false
  ]
]

elsewhere_all :
    (country_of : String → Option String) (country : String) (exits : List String)
    → All (λ exit. is_in country_of country exit ≡ false) (elsewhere country_of country exits)
unfolding elsewhere
elsewhere_all country_of country [] = tt
elsewhere_all country_of country (exit ∷ exits) =
    let rest = elsewhere_all country_of country exits in
    elim (Bool-cases (is_in country_of country exit)) [
      | inl same ↦ rw same rest
      | inr other ↦ rw other (other, rest)
    ]

-- The home exit stays, and every exit that is left to compare with is abroad.
pub record IsChosen (options : ProcessorOptions) (home : String) (pair : String × String)
    (left : List String) : Type 0 where
  pub same_home : pair.0 ≡ home
  pub abroad : All (IsAbroad options home) (pair.1 ∷ left)

trusted :
    (options : ProcessorOptions) (home : String) (exits : List String)
    → ((exit : String) → IsAbroad options home exit)
    → All (IsAbroad options home) exits
trusted options home [] h = tt
trusted options home (exit ∷ exits) h = (h exit, trusted options home exits h)

first_abroad :
    (options : ProcessorOptions) (home : String) (exits : List String) (pair' : String × String)
    (left : List String)
    → All (IsAbroad options home) exits
    → (elim exits as (λ _. Option ((String × String) × List String)) [
      | [] ↦ none
      | partner ∷ rest ↦ some ((home, partner), rest)
    ])
      ≡ some (pair', left)
    → IsChosen options home pair' left
first_abroad options home [] pair' left all h = absurd (cc h)
first_abroad options home (exit ∷ exits) pair' left all h =
    subst (λ (r : (String × String) × List String). IsChosen options home r.0 r.1)
      (some-injective ((home, exit), exits) (pair', left) h)
      (record { same_home = refl; abroad = all })

pub in_different_countries-IsChosen :
    (options : ProcessorOptions) (pair pair' : String × String) (fallbacks left : List String)
    → in_different_countries options pair fallbacks ≡ some (pair', left)
    → IsChosen options pair.0 pair' left
unfolding in_different_countries
in_different_countries-IsChosen options pair pair' fallbacks left h =
    elim (Option-cases options.locator) [
      | inl nowhere ↦
          subst (λ (r : (String × String) × List String). IsChosen options pair.0 r.0 r.1)
            (some-injective (pair, fallbacks) (pair', left) (rw nowhere at h))
            (record {
              same_home = refl;
              abroad = trusted options pair.0 (pair.1 ∷ fallbacks) (λ exit. rw nowhere tt);
            })
      | inr (country_of, located) ↦ elim (Option-cases (country_of pair.0)) [
        | inl unknown ↦
            subst (λ (r : (String × String) × List String). IsChosen options pair.0 r.0 r.1)
              (some-injective (pair, fallbacks) (pair', left) (rw (located, unknown) at h))
              (record {
                same_home = refl;
                abroad =
                    trusted options pair.0 (pair.1 ∷ fallbacks) (λ exit. rw (located, unknown) tt);
              })
        | inr (country, known) ↦
            let exits = elsewhere country_of country (pair.1 ∷ fallbacks) in
            first_abroad options pair.0 exits pair' left
              (All-map (λ exit. is_in country_of country exit ≡ false) (IsAbroad options pair.0)
                exits (λ exit other. rw (located, known) other)
                (elsewhere_all country_of country (pair.1 ∷ fallbacks)))
              (rw (located, known) at h)
      ]
    ]
