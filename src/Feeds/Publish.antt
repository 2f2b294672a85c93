-- ===== src/Feeds/Publish.antt =====
-- Which episodes appear in the served feed (feeds/publish.go). The episodes are in publish order, and
-- the map of those published is the list of its keys.
pub mod Order
use solstein.Base.{
  ℕ, Bool, true, false, not, ◌&&◌, ◌||◌, List, [], ◌∷◌, ◌==◌, if◌then◌else◌, length,
}
use solstein.Models.{Episode, is_failed, is_ready}
use solstein.Episodes.Store.{is_null}

-- Withheld by the failure policy, or hidden by a rule.
abbrev pub is_left_out : Episode → Bool
is_left_out episode = episode.withheld || episode.hidden

-- Published as it is, whether or not it has its file.
abbrev pub is_exempt : Bool → Bool → Episode → Bool
is_exempt prepare prepare_ahead episode =
    not prepare || (episode.backlog && not prepare_ahead) || not (is_null episode.dropped_at)

-- The identifiers that the loop publishes; a pending episode holds back the newer ones.
unfoldable pub published_from : Bool → Bool → Bool → List Episode → List ℕ
published_from prepare prepare_ahead holding [] = []
published_from prepare prepare_ahead holding (episode ∷ episodes) =
    let onward = published_from prepare prepare_ahead holding episodes in
    let held = published_from prepare prepare_ahead true episodes in
    if is_left_out episode
    then onward
    else if is_exempt prepare prepare_ahead episode
    then episode.id ∷ onward
    else if holding
    then onward
    else if is_ready episode.state || is_failed episode.state
    then episode.id ∷ onward
    else held

-- The oldest that is not left out, or else the one given.
unfoldable pub oldest_of : Episode → List Episode → Episode
oldest_of oldest [] = oldest
oldest_of oldest (episode ∷ episodes) =
    let rest = oldest_of oldest episodes in if is_left_out episode then rest else episode

unfoldable pub published_episodes : Bool → Bool → List Episode → List ℕ
unfolding published_from oldest_of
published_episodes prepare prepare_ahead [] = []
published_episodes prepare prepare_ahead (first ∷ rest) =
    let published = published_from prepare prepare_ahead false (first ∷ rest) in
    if length published == 0 then (oldest_of first (first ∷ rest)).id ∷ [] else published
