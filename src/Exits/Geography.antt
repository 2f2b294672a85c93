-- ===== src/Exits/Geography.antt =====
-- Countries, areas and continents (modules/exits/geography.go).
mod Row
mod Table1
mod Table2
mod Table3
pub use Row.{Country}
use Table1.{countries1}
use Table2.{countries2}
use Table3.{countries3}
use Prim.Native.String.{String}
use text.Mathlib.Text.{◌==◌ as str_eq}
use solstein.Base.{
  Bool, true, false, not, ◌&&◌, ◌||◌, Option, none, some, List, [], ◌∷◌, if◌then◌else◌,
}

unfoldable pub country_in : String → List (String × Country) → Option Country
country_in code [] = none
country_in code ((c, country) ∷ rows) =
    let rest = country_in code rows in if str_eq c code then some country else rest

-- The country of a code, from the table in its three parts.
unfoldable pub country_of : String → Option Country
country_of code = elim (country_in code countries1) [
  | some country ↦ some country
  | none ↦ elim (country_in code countries2) [
    | some country ↦ some country
    | none ↦ country_in code countries3
  ]
]

unfoldable pub in_area : String → String → Bool
in_area code area = elim (country_of code) [
  | none ↦ false
  | some c ↦ not (str_eq area "") && (str_eq c.sub_region area || str_eq c.intermediate_region area)
]

-- The aliases are of continents that M49 splits or merges differently.
unfoldable pub in_continent : String → String → Bool
in_continent code continent = elim (country_of code) [
  | none ↦ false
  | some c ↦
      if str_eq continent "north-america"
      then str_eq c.sub_region "northern-america"
        || (str_eq c.intermediate_region "central-america"
            || str_eq c.intermediate_region "caribbean")
      else if str_eq continent "south-america"
      then str_eq c.intermediate_region "south-america"
      else not (str_eq continent "") && str_eq c.continent continent
]
