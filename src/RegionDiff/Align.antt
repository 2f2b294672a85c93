-- ===== src/RegionDiff/Align.antt =====
-- Finding the runs that two downloads share (modules/regiondiff/diff.go: frameHashes, align,
-- grams, inOrder, verify). The hash of a frame's bytes is a parameter: maphash is seeded afresh.
pub mod Anchors
pub mod Order
pub mod Verified
use solstein.Base.{
  ℕ, zero, suc, ◌+◌, ◌-◌, ◌*◌, ◌/◌, ◌%◌, ◌^◌, bit_xor, Bool, true, false, not, ◌&&◌, ◌||◌, Option,
  none, some, List, [], ◌∷◌, ◌++◌, map, ◌==◌, ltb, leb, if◌then◌else◌, length, get_or, get_elem?,
  set, slice, take, drop, bytes_equal,
}
use solstein.Mp3.Frame.{Frame, File, frame_bytes}
use solstein.RegionDiff.Run.{Run, anchor_frames, bytes_at}

-- FNV-1a over 64-bit values, as the source mixes frame hashes.
unfoldable pub mix : ℕ → List ℕ → ℕ
mix h [] = h
mix h (value ∷ values) = mix (bit_xor h value * 1099511628211 % 2 ^ 64) values

abbrev pub mix_basis : ℕ
mix_basis = 14695981039346656037

unfoldable pub frame_hashes : (List ℕ → ℕ) → File → List ℕ
frame_hashes hash file = map (λ frame. hash (frame_bytes file frame)) file.frames

-- One hash for each group of frames; the first argument is how many groups are left.
grams_from : ℕ → List ℕ → List ℕ
grams_from zero hashes = []
grams_from (suc n) hashes = mix mix_basis (take anchor_frames hashes) ∷ grams_from n (drop 1 hashes)

unfoldable pub grams : List ℕ → List ℕ
unfolding grams_from
grams hashes =
    if ltb (length hashes) anchor_frames
    then []
    else grams_from (length hashes - anchor_frames + 1) hashes

unfoldable pub count : ℕ → List ℕ → ℕ
count value [] = 0
count value (x ∷ xs) = let rest = count value xs in if x == value then suc rest else rest

-- The map from a gram that occurs once to its index: the last index stored wins.
index_from : ℕ → ℕ → List ℕ → Option ℕ
index_from i value [] = none
index_from i value (x ∷ xs) =
    let rest = index_from (suc i) value xs in
    elim rest [ some j ↦ some j | none ↦ if x == value then some i else none ]

other_index : List ℕ → ℕ → Option ℕ
unfolding index_from count
other_index grams gram = if count gram grams == 1 then index_from 0 gram grams else none

anchors_from : ℕ → List ℕ → List ℕ → List ℕ → List Run
anchors_from i home other [] = []
anchors_from i home other (gram ∷ grams) =
    let rest = anchors_from (suc i) home other grams in
    if not (count gram home == 1) then rest else elim (other_index other gram) [
      | none ↦ rest
      | some j ↦ record { home = i; other = j; length = anchor_frames } ∷ rest
    ]

unfoldable pub anchors : List ℕ → List ℕ → List Run
unfolding anchors_from other_index count
anchors home other = anchors_from 0 home other home

-- The standard library's sort.Search: the first index below `n` with the test, by halving.
search_from : ℕ → (ℕ → Bool) → ℕ → ℕ → ℕ
search_from zero test i j = i
search_from (suc fuel) test i j =
    let middle = (i + j) / 2 in
    let upper = search_from fuel test (middle + 1) j in
    let lower = search_from fuel test i middle in
    if ltb i j then (if test middle then lower else upper) else i

sort_search : ℕ → (ℕ → Bool) → ℕ
unfolding search_from
sort_search n test = search_from (suc n) test 0 n

-- sort.Slice by home position.
insert_by_home : Run → List Run → List Run
insert_by_home r [] = r ∷ []
insert_by_home r (x ∷ xs) = if leb r.home x.home then r ∷ x ∷ xs else x ∷ insert_by_home r xs

unfoldable pub sort_by_home : List Run → List Run
unfolding insert_by_home
sort_by_home [] = []
sort_by_home (r ∷ rs) = insert_by_home r (sort_by_home rs)

abbrev no_run : Run
no_run = record { home = 0; other = 0; length = 0 }

-- The loop that keeps `tails` and the back pointers; `none` is the source's -1.
record Tails : Type 0 where
  tails : List ℕ
  previous : List (Option ℕ)

-- The anchor with index `i` ends an increasing run of length `k + 1`.
add_at : ℕ → ℕ → Tails → Tails
add_at k i s = record {
  tails = if k == length s.tails then s.tails ++ i ∷ [] else set s.tails k i;
  previous = s.previous ++ (if ltb 0 k then some (get_or s.tails (k - 1) 0) else none) ∷ [];
}

add_anchor : List Run → ℕ → Run → Tails → Tails
add_anchor all i anchor s =
    add_at
      (sort_search (length s.tails)
        (λ k. leb anchor.other (get_or all (get_or s.tails k 0) no_run).other))
      i s

add_anchors : List Run → ℕ → List Run → Tails → Tails
add_anchors all i [] s = s
add_anchors all i (anchor ∷ rest) s = add_anchors all (suc i) rest (add_anchor all i anchor s)

-- The chain of back pointers from index `i`, `n` anchors long, last first.
follow : List Run → List (Option ℕ) → ℕ → ℕ → List Run → List Run
follow all previous zero i chain = chain
follow all previous (suc n) i chain = elim (get_or previous i none) [
  | none ↦ get_or all i no_run ∷ chain
  | some j ↦ follow all previous n j (get_or all i no_run ∷ chain)
]

unfoldable pub in_order : List Run → List Run
unfolding add_anchors add_anchor add_at sort_search follow sort_by_home
in_order given =
    let all = sort_by_home given in
    let s = add_anchors all 0 all (record { tails = []; previous = [] }) in
    follow all s.previous (length s.tails) (get_or s.tails (length s.tails - 1) 0) []

-- How many frames before a position the two downloads still share.
steps_back : List ℕ → List ℕ → ℕ → ℕ → ℕ → ℕ → ℕ → ℕ
steps_back home other lower_home lower_other zero h o = 0
steps_back home other lower_home lower_other (suc fuel) h o =
    let rest = steps_back home other lower_home lower_other fuel (h - 1) (o - 1) in
    if ltb lower_home h && (ltb lower_other o && get_or home (h - 1) 0 == get_or other (o - 1) 0)
    then suc rest
    else 0

-- How many frames from a position on the two downloads share.
steps_on : List ℕ → List ℕ → ℕ → ℕ → ℕ → ℕ
steps_on home other zero h o = 0
steps_on home other (suc fuel) h o =
    let rest = steps_on home other fuel (h + 1) (o + 1) in
    if ltb h (length home) && (ltb o (length other) && get_or home h 0 == get_or other o 0)
    then suc rest
    else 0

-- An anchor made as long as the frames around it are equal, back to the run before at most.
extend : List ℕ → List ℕ → ℕ → ℕ → Run → Run
unfolding steps_back steps_on
extend home other lower_home lower_other anchor =
    let back = steps_back home other lower_home lower_other anchor.home anchor.home anchor.other in
    let end = anchor.home + anchor.length in
    let on = steps_on home other (length home) end (end - anchor.home + anchor.other) in
    record {
      home = anchor.home - back;
      other = anchor.other - back;
      length = back + anchor.length + on;
    }

-- The loop over the anchors; the lower bounds are the last run's ends, or 0 before the first run.
unfoldable pub align_from : List ℕ → List ℕ → ℕ → ℕ → List Run → List Run
unfolding extend
align_from home other lower_home lower_other [] = []
align_from home other lower_home lower_other (anchor ∷ rest) =
    let r = extend home other lower_home lower_other anchor in
    let skipped = align_from home other lower_home lower_other rest in
    let following = align_from home other (r.home + r.length) (r.other + r.length) rest in
    if ltb anchor.home lower_home || ltb anchor.other lower_other then skipped else r ∷ following

unfoldable pub align : List ℕ → List ℕ → List Run
unfolding align_from in_order anchors grams
align home other = align_from home other 0 0 (in_order (anchors (grams home) (grams other)))

-- How many of a run's frames, from its first on, have the same bytes.
verified_length : File → File → ℕ → ℕ → ℕ → ℕ
verified_length home other zero h o = 0
verified_length home other (suc n) h o =
    let rest = verified_length home other n (h + 1) (o + 1) in
    if bytes_equal (bytes_at home h) (bytes_at other o) then suc rest else 0

unfoldable pub verify : File → File → List Run → List Run
unfolding verified_length
verify home other [] = []
verify home other (r ∷ rs) =
    let length = verified_length home other r.length r.home r.other in
    let rest = verify home other rs in
    if ltb 0 length then record r { length = length } ∷ rest else rest
