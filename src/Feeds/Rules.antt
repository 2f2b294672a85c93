-- ===== src/Feeds/Rules.antt =====
-- A feed's rules (feeds/rules.go): checking them, and the first that an episode matches. Go's regular
-- expressions are parameters: compiling a pattern, and whether a title has a match. Integers are
-- unbounded, as nothing is added to them. Go's len of a string counts bytes, as `len` does here.
pub mod First
pub mod Counts
use Prim.Native.String.{String, ◌++◌ as append, len}
use text.Mathlib.Text.{◌==◌ as str_eq}
use solstein.Base.{
  ℕ, zero, suc, ◌+◌, ◌-◌, Bool, true, false, not, ◌&&◌, ◌||◌, Option, none, some, List, [], ◌∷◌,
  ◌==◌, ltb, leb, if◌then◌else◌, length, get_elem?, set, get_or, replicate, map, ℤ, pos, negsuc,
  ltbℤ,
}

-- What a feed's rule is stored as (models/feed_rule.go), and as the API has it: both types of the
-- source have these fields.
pub record Rule : Type 0 where
  pub title_matches : String
  pub min_seconds : ℤ
  pub max_seconds : ℤ
  pub action : String
  pub episode_type : String

-- What the rules read of an episode.
pub record Episode : Type 0 where
  pub title : String
  pub source_seconds : ℤ
  pub cache_seconds : ℤ

abbrev pub rule_hide : String
rule_hide = "hide"

abbrev pub rule_tag : String
rule_tag = "tag"

abbrev pub episode_types : List String
episode_types = "full" ∷ "bonus" ∷ "trailer" ∷ []

abbrev pub max_rules : ℕ
max_rules = 50

abbrev pub max_title_pattern : ℕ
max_title_pattern = 500

-- Why a rule is not valid.
pub data Reason : Type 0 where
  type_without_tag unknown_type unknown_action negative_length no_length_between : Reason
  long_pattern bad_pattern : Reason

-- A rule with its pattern compiled.
pub record CompiledRule (P : Type 0) : Type 0 where
  pub rule : Rule
  pub title : Option P

-- The rules compiled, or the error; a rule is named by its place in the list.
pub data Compiled (A : Type 0) : Type 0 where
  ok : A → Compiled A
  too_many : Compiled A
  invalid : ℕ → Reason → Compiled A

unfoldable pub contains : String → List String → Bool
contains name [] = false
contains name (n ∷ ns) = str_eq n name || contains name ns

unfoldable pub check_action : Rule → Option Reason
check_action rule =
    if str_eq rule.action rule_hide
    then (if str_eq rule.episode_type "" then none else some type_without_tag)
    else if str_eq rule.action rule_tag
    then (if contains rule.episode_type episode_types then none else some unknown_type)
    else some unknown_action

unfoldable pub check_lengths : Rule → Option Reason
check_lengths rule =
    if ltbℤ rule.min_seconds (pos 0) || ltbℤ rule.max_seconds (pos 0)
    then some negative_length
    else if ltbℤ (pos 0) rule.max_seconds && ltbℤ rule.max_seconds rule.min_seconds
    then some no_length_between
    else if ltb max_title_pattern (len rule.title_matches)
    then some long_pattern
    else none

-- The length that rules compare.
abbrev pub length_of : Episode → ℤ
length_of episode =
    if ltbℤ (pos 0) episode.source_seconds then episode.source_seconds else episode.cache_seconds

module _ {P : Type 0} (compile : String → Option P) (match_string : P → String → Bool) where
  unfoldable pub compile_rule : ℕ → Rule → Compiled (CompiledRule P)
  compile_rule i rule = elim (check_action rule) [
    | some reason ↦ invalid i reason
    | none ↦ elim (check_lengths rule) [
      | some reason ↦ invalid i reason
      | none ↦
          if str_eq rule.title_matches ""
          then ok (record { rule = rule; title = none })
          else elim (compile (append "(?i)" rule.title_matches)) [
            | none ↦ invalid i bad_pattern
            | some title ↦ ok (record { rule = rule; title = some title })
          ]
    ]
  ]

  unfoldable pub compile_from : ℕ → List Rule → Compiled (List (CompiledRule P))
  compile_from i [] = ok []
  compile_from i (rule ∷ list) =
      let rest = compile_from (i + 1) list in
      elim (compile_rule i rule) [
        | invalid j reason ↦ invalid j reason
        | too_many ↦ too_many
        | ok entry ↦ elim rest [
          | invalid j reason ↦ invalid j reason
          | too_many ↦ too_many
          | ok entries ↦ ok (entry ∷ entries)
        ]
      ]

  unfoldable pub compile_rules : List Rule → Compiled (List (CompiledRule P))
  compile_rules list = if ltb max_rules (length list) then too_many else compile_from 0 list

  -- The guards that skip a rule, in the order of the loop.
  unfoldable pub applies : CompiledRule P → Episode → Bool
  applies entry episode =
      let rule = entry.rule in
      let length = length_of episode in
      let titled : Bool = elim entry.title [
        | none ↦ true
        | some title ↦ match_string title episode.title
      ] in
      if not titled
      then false
      else if (ltbℤ (pos 0) rule.min_seconds || ltbℤ (pos 0) rule.max_seconds)
          && not (ltbℤ (pos 0) length)
      then false
      else if ltbℤ (pos 0) rule.min_seconds && ltbℤ length rule.min_seconds
      then false
      else if ltbℤ (pos 0) rule.max_seconds && ltbℤ rule.max_seconds length
      then false
      else true

  -- The first rule that the episode matches.
  unfoldable pub match : List (CompiledRule P) → Episode → Option Rule
  match [] episode = none
  match (entry ∷ list) episode =
      let rest = match list episode in if applies entry episode then some entry.rule else rest

  unfoldable pub hides : List (CompiledRule P) → Episode → Bool
  hides list episode = elim (match list episode) [
    | none ↦ false
    | some rule ↦ str_eq rule.action rule_hide
  ]

  unfoldable pub episode_type : List (CompiledRule P) → Episode → String
  episode_type list episode = elim (match list episode) [
    | none ↦ ""
    | some rule ↦ if str_eq rule.action rule_tag then rule.episode_type else ""
  ]

  -- The index of the first rule that matches by itself, from an index on; none stands for -1.
  unfoldable pub first_from : ℕ → List (CompiledRule P) → Episode → Option ℕ
  first_from index [] episode = none
  first_from index (entry ∷ list) episode =
      let rest = first_from (index + 1) list episode in
      elim (match (entry ∷ []) episode) [ none ↦ rest | some rule ↦ some index ]

  unfoldable pub deciding_from : List (CompiledRule P) → List Episode → List (Option ℕ)
  deciding_from compiled [] = []
  deciding_from compiled (episode ∷ episodes) =
      first_from 0 compiled episode ∷ deciding_from compiled episodes

  unfoldable pub deciding_rules : List Rule → List Episode → Option (List (Option ℕ))
  deciding_rules list episodes = elim (compile_rules list) [
    | ok compiled ↦ some (deciding_from compiled episodes)
    | too_many ↦ none
    | invalid i reason ↦ none
  ]

  unfoldable pub count_deciding : List (Option ℕ) → List ℕ → List ℕ
  count_deciding [] counts = counts
  count_deciding (none ∷ deciding) counts = count_deciding deciding counts
  count_deciding (some index ∷ deciding) counts =
      count_deciding deciding (set counts index (get_or counts index 0 + 1))

  unfoldable pub count_matches : List Rule → List Episode → Option (List ℕ)
  count_matches list episodes = elim (deciding_rules list episodes) [
    | none ↦ none
    | some deciding ↦ some (count_deciding deciding (replicate (length list) 0))
  ]
