-- ===== src/Feeds/Tests.antt =====
-- Runs of a feed's rules, and the theorems at them. A pattern here is matched as a whole title.
use Prim.Native.String.{String}
use text.Mathlib.Text.{◌==◌ as str_eq}
use solstein.Base.{
  ℕ, ◌≡◌, refl, Bool, true, false, Option, some, none, List, [], ◌∷◌, map, length, sum, pos, negsuc,
}
use solstein.Models as Models
use solstein.Models.{ready}
use solstein.Models.Examples.{new_episode}
use solstein.Feeds.Publish.{published_episodes}
use solstein.Feeds.Publish.Order.{IsFeed, published_episodes-IsFeed}
use solstein.Feeds.Rules.{
  Rule, Episode, CompiledRule, ok, compile_rules, compile_from, compile_rule, check_action,
  check_lengths, contains, match, applies, deciding_rules, deciding_from, first_from, count_matches,
  count_deciding, invalid, negative_length,
}
use solstein.Feeds.Rules.First.{NamesAll, deciding_rules-match}
use solstein.Feeds.Rules.Counts.{decided, sum-count_matches}

abbrev as_pattern : String → Option String
as_pattern text = some text

abbrev is_title : String → String → Bool
is_title pattern title = str_eq pattern title

abbrev hide_short : Rule
hide_short = record {
  title_matches = "";
  min_seconds = pos 0;
  max_seconds = pos 60;
  action = "hide";
  episode_type = "";
}

abbrev tag_bonus : Rule
tag_bonus = record hide_short {
  title_matches = "extra";
  max_seconds = pos 0;
  action = "tag";
  episode_type = "bonus";
}

abbrev list : List Rule
list = hide_short ∷ tag_bonus ∷ []

abbrev episode_of : String → ℕ → Episode
episode_of title seconds = record {
  title = title;
  source_seconds = pos seconds;
  cache_seconds = pos 0;
}

abbrev episodes : List Episode
episodes =
    episode_of "news" 30
    ∷ episode_of "(?i)extra" 300
    ∷ episode_of "news" 300
    ∷ episode_of "news" 20
    ∷ []

abbrev compiled : List (CompiledRule String)
compiled =
    record { rule = hide_short; title = none }
    ∷ record { rule = tag_bonus; title = some "(?i)extra" }
    ∷ []

both_valid : compile_rules as_pattern is_title list ≡ ok compiled
unfolding compile_rules compile_from compile_rule check_action check_lengths contains
both_valid = refl

negative :
    compile_rules as_pattern is_title
      (hide_short ∷ record hide_short { min_seconds = negsuc 0 } ∷ [])
    ≡ invalid 1 negative_length
unfolding compile_rules compile_from compile_rule check_action check_lengths contains
negative = refl

counted : count_matches as_pattern is_title list episodes ≡ some (2 ∷ 1 ∷ [])
unfolding count_matches count_deciding deciding_rules deciding_from first_from match applies
    compile_rules compile_from compile_rule check_action check_lengths contains
counted = refl

deciding_rules-match_example :
    (deciding : List (Option ℕ)) × (deciding_rules as_pattern is_title list episodes
      ≡ some deciding)
    × NamesAll list deciding (map (match as_pattern is_title compiled) episodes)
deciding_rules-match_example = deciding_rules-match as_pattern is_title list episodes both_valid

sum-count_matches_example :
    (counts : List ℕ) × (count_matches as_pattern is_title list episodes ≡ some counts)
    × (length counts ≡ length list)
    × (sum counts ≡ decided (match as_pattern is_title compiled) episodes)
sum-count_matches_example = sum-count_matches as_pattern is_title list episodes both_valid

-- The second of three episodes is pending.
abbrev ready_at : ℕ → Models.Episode
ready_at id = record new_episode { id = id; state = ready }

abbrev three_episodes : List Models.Episode
three_episodes = ready_at 1 ∷ record new_episode { id = 2 } ∷ ready_at 3 ∷ []

holds_back : published_episodes true false three_episodes ≡ 1 ∷ []
unfolding published_episodes
holds_back = refl

published_episodes-IsFeed_example :
    IsFeed true false three_episodes (published_episodes true false three_episodes)
published_episodes-IsFeed_example = published_episodes-IsFeed true false three_episodes
