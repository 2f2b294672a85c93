-- ===== src/Feeds/Rules/Counts.antt =====
-- How many episodes each rule decides for (feeds/rules.go: CountMatches).
use Prim.Native.String.{String}
use solstein.Base.{
  ℕ, zero, suc, ◌+◌, ◌<◌, ◌≡◌, refl, ap, ◌∙◌, inl, inr, Bool, Option, none, some, List, [], ◌∷◌,
  length, set, get_or, replicate, sum, arith, length-replicate,
}
use solstein.Feeds.Rules.First.{
  zero_plus, rules_of-get, length-rules_of, first_from-match, compile_rules-rules,
}
use solstein.Feeds.Rules.{
  Rule, Episode, CompiledRule, ok, compile_rules, match, deciding_from, deciding_rules,
  count_deciding, count_matches,
}

-- How many episodes some rule decides for.
unfoldable pub decided : {A : Type 0} → (A → Option Rule) → List A → ℕ
decided rule_for [] = 0
decided rule_for (a ∷ as') = (elim (rule_for a) [ none ↦ 0 | some rule ↦ 1 ]) + decided rule_for as'

sum-set_suc :
    (xs : List ℕ) (i : ℕ)
    → i < length xs
    → (sum (set xs i (get_or xs i 0 + 1)) ≡ sum xs + 1)
      × (length (set xs i (get_or xs i 0 + 1)) ≡ length xs)
sum-set_suc [] i lt = absurd (omega arith)
sum-set_suc (x ∷ xs) zero lt = (omega arith, refl)
sum-set_suc (x ∷ xs) (suc i) lt =
    let (a, b) = sum-set_suc xs i (omega arith) in (omega arith, omega arith)

sum-zeros : (n : ℕ) → sum (replicate n 0) ≡ 0
sum-zeros zero = refl
sum-zeros (suc n) = omega (arith, sum-zeros n)

module _ {P : Type 0} (compile : String → Option P) (match_string : P → String → Bool) where
  count_deciding-sum :
      (compiled : List (CompiledRule P)) (episodes : List Episode) (counts : List ℕ)
      → length counts ≡ length compiled
      → let counts' =
          count_deciding compile match_string
            (deciding_from compile match_string compiled episodes)
            counts in
        (sum counts' ≡ sum counts + decided (match compile match_string compiled) episodes)
        × (length counts' ≡ length counts)
  unfolding count_deciding deciding_from decided
  count_deciding-sum compiled [] counts e = (omega arith, refl)
  count_deciding-sum compiled (episode ∷ episodes) counts e =
      elim (first_from-match compile match_string 0 compiled episode) [
        | inl (a, b) ↦
            let (s, l) = count_deciding-sum compiled episodes counts e in rw (a, b) (omega arith, l)
        | inr (k, a, b, c) ↦
            let a' = a ∙ ap (λ (n : ℕ). some n) (zero_plus k) in
            let (rule, found) = rules_of-get compiled k c in
            let up = sum-set_suc counts k (omega arith) in
            let (s, l) =
              count_deciding-sum compiled episodes (set counts k (get_or counts k 0 + 1))
                (omega (arith, up.1)) in
            rw (a', b ∙ found) (omega (arith, up.0), omega (arith, up.1))
      ]

  -- Where the rules are valid, there is a count for each rule, and the counts add up to the number of
  -- episodes that some rule matches: each such episode counts for one rule.
  pub sum-count_matches :
      (list : List Rule) (episodes : List Episode) {compiled : List (CompiledRule P)}
      → compile_rules compile match_string list ≡ ok compiled
      → (counts : List ℕ) × (count_matches compile match_string list episodes ≡ some counts)
        × (length counts ≡ length list)
        × (sum counts ≡ decided (match compile match_string compiled) episodes)
  unfolding count_matches deciding_rules
  sum-count_matches list episodes {compiled} e =
      let zeros : List ℕ = replicate (length list) 0 in
      let zeros_length = length-replicate {A = ℕ} (length list) 0 in
      let none_lost =
        ap (λ (l : List Rule). length l) (compile_rules-rules compile match_string list e) in
      let (s, l) =
        count_deciding-sum compiled episodes zeros
          (omega (arith, none_lost, length-rules_of compiled, zeros_length)) in
      (
        count_deciding compile match_string (deciding_from compile match_string compiled episodes)
            zeros,
        rw (e, count_matches, deciding_rules) refl,
        omega (arith, zeros_length),
        omega (arith, sum-zeros (length list)),
      )
