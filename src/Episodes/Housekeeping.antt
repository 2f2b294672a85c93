-- ===== src/Episodes/Housekeeping.antt =====
-- Keeping the cache in check (episodes/housekeeping.go, database/housekeeping.go). Deleting a cached
-- file is a parameter: it is removed, left for the next sweep, or an error that ends the sweep. Stray
-- files, which are found by walking the directory, are left out.
pub mod Cap
use Prim.Native.String.{String}
use text.Mathlib.Text.{◌==◌ as str_eq}
use solstein.Base.{
  ℕ, zero, suc, ◌+◌, ◌-◌, ◌≤◌, Bool, true, false, not, ◌&&◌, ◌||◌, Option, none, some, List, [],
  ◌∷◌, ◌++◌, ◌==◌, ltb, leb, if◌then◌else◌,
}
use solstein.Models.{Episode, forget_cache}
use solstein.Episodes.Store.{is_null}

pub data Removal : Type 0 where
  removed left_there error : Removal

-- What a sweep removes from the cache, what it leaves, and whether it ended with an error.
pub record Swept : Type 0 where
  pub gone : List Episode
  pub left : List Episode
  pub ended : Bool

-- A selected episode keeps its file for now where `kept` says so.
unfoldable pub without : (Episode → Bool) → List Episode → List Episode
without kept [] = []
without kept (e ∷ es) = if kept e then without kept es else e ∷ without kept es

unfoldable pub cached_before : ℕ → List Episode → List Episode
cached_before cutoff [] = []
cached_before cutoff (e ∷ es) =
    let rest = cached_before cutoff es in
    elim e.cached_at [
      | none ↦ rest
      | some at ↦ if not (str_eq e.cache_file "") && ltb at cutoff then e ∷ rest else rest
    ]

unfoldable pub fully_served : List Episode → List Episode
fully_served [] = []
fully_served (e ∷ es) =
    if not (str_eq e.cache_file "") && not (is_null e.fully_served_at)
    then e ∷ fully_served es
    else fully_served es

-- Cached longer ago, NULL first, as SQLite orders.
abbrev older_copy : Episode → Episode → Bool
older_copy a b = elim a.cached_at [
  | none ↦ not (is_null b.cached_at)
  | some s ↦ elim b.cached_at [ none ↦ false | some t ↦ ltb s t ]
]

unfoldable pub insert_by_age : Episode → List Episode → List Episode
insert_by_age e [] = e ∷ []
insert_by_age e (x ∷ xs) =
    let rest = insert_by_age e xs in if older_copy x e then x ∷ rest else e ∷ x ∷ xs

unfoldable pub cached_by_age : List Episode → List Episode
unfolding insert_by_age
cached_by_age [] = []
cached_by_age (e ∷ es) =
    let rest = cached_by_age es in if str_eq e.cache_file "" then rest else insert_by_age e rest

abbrev pub total_size : List Episode → ℕ
total_size [] = 0
total_size (e ∷ es) = e.cache_size + total_size es

module _ (remove : Episode → Removal) where
  unfoldable pub remove_each : List Episode → Swept
  remove_each [] = record { gone = []; left = []; ended = false }
  remove_each (e ∷ es) =
      let rest = remove_each es in
      elim (remove e) [
        | removed ↦ record rest { gone = e ∷ rest.gone }
        | left_there ↦ record rest { left = e ∷ rest.left }
        | error ↦ record { gone = []; left = e ∷ es; ended = true }
      ]

  -- From the oldest copy on, until the total is no more than the cap.
  unfoldable pub evict_from : ℕ → (Episode → Bool) → ℕ → List Episode → Swept
  evict_from max_size kept total [] = record { gone = []; left = []; ended = false }
  evict_from max_size kept total (e ∷ es) =
      let passed = evict_from max_size kept total es in
      let lower = evict_from max_size kept (total - e.cache_size) es in
      if leb total max_size
      then record { gone = []; left = e ∷ es; ended = false }
      else if kept e
      then record passed { left = e ∷ passed.left }
      else elim (remove e) [
        | removed ↦ record lower { gone = e ∷ lower.gone }
        | left_there ↦ record passed { left = e ∷ passed.left }
        | error ↦ record { gone = []; left = e ∷ es; ended = true }
      ]

  -- A cap of 0 is none.
  unfoldable pub enforce_size_cap : ℕ → (Episode → Bool) → List Episode → Swept
  unfolding cached_by_age evict_from
  enforce_size_cap zero kept episodes = record {
    gone = [];
    left = cached_by_age episodes;
    ended = false;
  }
  enforce_size_cap (suc cap) kept episodes =
      evict_from (suc cap) kept (total_size (cached_by_age episodes)) (cached_by_age episodes)

  unfoldable pub expire : ℕ → (Episode → Bool) → List Episode → Swept
  unfolding cached_before without remove_each
  expire cutoff kept episodes = remove_each (without kept (cached_before cutoff episodes))

  unfoldable pub evict_served : Bool → (Episode → Bool) → List Episode → Swept
  unfolding fully_served without remove_each
  evict_served evict_after_serve kept episodes =
      if not evict_after_serve
      then record { gone = []; left = []; ended = false }
      else remove_each (without kept (fully_served episodes))
