-- ===== src/Feeds/Rules/First.antt =====
-- The rule that decides for an episode, by the ways the code asks (feeds/rules.go: match,
-- DecidingRules).
use Prim.Native.String.{String, ◌++◌ as append}
use text.Mathlib.Text.{◌==◌ as str_eq}
use solstein.Base.{
  ℕ, zero, suc, ◌+◌, ◌<◌, ◌≡◌, refl, sym, ap, ◌∙◌, subst, subst₂, ◌⊎◌, inl, inr, Bool, Option, none,
  some, List, [], ◌∷◌, ltb, length, get_elem?, map, Bool-cases, Option-cases, arith,
}
use solstein.Feeds.Rules.{
  max_rules, Rule, Reason, Episode, CompiledRule, Compiled, ok, too_many, invalid, check_action,
  check_lengths, compile_rule, compile_from, compile_rules, applies, match, first_from,
  deciding_from, deciding_rules,
}

-- No index where there is no rule, and otherwise the index of the rule in the list.
abbrev pub Names : List Rule → Option ℕ → Option Rule → Type 0
Names list none none = Unit
Names list none (some rule) = ⊥
Names list (some index) none = ⊥
Names list (some index) (some rule) = get_elem? list index ≡ some rule

-- One for each.
abbrev pub NamesAll : List Rule → List (Option ℕ) → List (Option Rule) → Type 0
NamesAll list [] [] = Unit
NamesAll list [] (rule ∷ rules) = ⊥
NamesAll list (index ∷ indices) [] = ⊥
NamesAll list (index ∷ indices) (rule ∷ rules) = Names list index rule × NamesAll list indices rules

-- The rules as they were before they were compiled.
unfoldable pub rules_of : {P : Type 0} → List (CompiledRule P) → List Rule
rules_of [] = []
rules_of (entry ∷ list) = entry.rule ∷ rules_of list

Compiled-cases :
    {A : Type 0} (c : Compiled A)
    → ((a : A) × (c ≡ ok a))
      ⊎ ((c ≡ too_many) ⊎ ((i : ℕ) × (reason : Reason) × (c ≡ invalid i reason)))
Compiled-cases (ok a) = inl (a, refl)
Compiled-cases too_many = inr (inl refl)
Compiled-cases (invalid i reason) = inr (inr (i, reason, refl))

abbrev ok_or : {A : Type 0} → A → Compiled A → A
ok_or default (ok a) = a
ok_or default too_many = default
ok_or default (invalid i reason) = default

pub zero_plus : (k : ℕ) → 0 + k ≡ k
zero_plus k = omega arith

pub rules_of-get :
    {P : Type 0} (compiled : List (CompiledRule P)) (k : ℕ)
    → k < length compiled
    → (rule : Rule) × (get_elem? (rules_of compiled) k ≡ some rule)
unfolding rules_of
rules_of-get [] k lt = absurd (omega arith)
rules_of-get (entry ∷ list) zero lt = (entry.rule, refl)
rules_of-get (entry ∷ list) (suc k) lt = rules_of-get list k (omega arith)

pub length-rules_of :
    {P : Type 0} (compiled : List (CompiledRule P)) → length (rules_of compiled) ≡ length compiled
unfolding rules_of
length-rules_of [] = refl
length-rules_of (entry ∷ list) = omega (arith, length-rules_of list)

module _ {P : Type 0} (compile : String → Option P) (match_string : P → String → Bool) where
  compile_rule-rule :
      (i : ℕ) (rule : Rule) {entry : CompiledRule P}
      → compile_rule compile match_string i rule ≡ ok entry
      → entry.rule ≡ rule
  unfolding compile_rule
  compile_rule-rule i rule {entry} e = elim (Option-cases (check_action rule)) [
    | inr (reason, bad) ↦ absurd (cc (rw (bad, compile_rule) at e))
    | inl action ↦ elim (Option-cases (check_lengths rule)) [
      | inr (reason, bad) ↦ absurd (cc (rw (action, bad, compile_rule) at e))
      | inl lengths ↦ elim (Bool-cases (str_eq rule.title_matches "")) [
        | inl untitled ↦
            ap (λ c. (ok_or entry c).rule) (sym (rw (action, lengths, untitled, compile_rule) at e))
        | inr titled ↦ elim (Option-cases (compile (append "(?i)" rule.title_matches))) [
          | inl bad ↦ absurd (cc (rw (action, lengths, titled, bad, compile_rule) at e))
          | inr (title, found) ↦
              ap (λ c. (ok_or entry c).rule)
                (sym (rw (action, lengths, titled, found, compile_rule) at e))
        ]
      ]
    ]
  ]

  compile_from-rules :
      (i : ℕ) (list : List Rule) {entries : List (CompiledRule P)}
      → compile_from compile match_string i list ≡ ok entries
      → rules_of entries ≡ list
  unfolding compile_from rules_of
  compile_from-rules i [] e = ap (λ c. rules_of (ok_or [] c)) (sym e)
  compile_from-rules i (rule ∷ list) {entries} e =
      elim (Compiled-cases (compile_rule compile match_string i rule)) [
        | inl (entry, first) ↦
            elim (Compiled-cases (compile_from compile match_string (i + 1) list)) [
              | inl (rest, more) ↦
                  let same = rw (first, more, compile_from) at e in
                  ap (λ c. rules_of (ok_or entries c)) (sym same)
                  ∙ ap (λ r. r ∷ rules_of rest) (compile_rule-rule i rule first)
                  ∙ ap (λ rs. rule ∷ rs) (compile_from-rules (i + 1) list more)
              | inr (inl bad) ↦ absurd (cc (rw (first, bad, compile_from) at e))
              | inr (inr (j, reason, bad)) ↦ absurd (cc (rw (first, bad, compile_from) at e))
            ]
        | inr (inl bad) ↦ absurd (cc (rw (bad, compile_from) at e))
        | inr (inr (j, reason, bad)) ↦ absurd (cc (rw (bad, compile_from) at e))
      ]

  pub first_from-match :
      (i : ℕ) (list : List (CompiledRule P)) (episode : Episode)
      → ((first_from compile match_string i list episode ≡ none)
          × (match compile match_string list episode ≡ none))
        ⊎ ((k : ℕ) × (first_from compile match_string i list episode ≡ some (i + k))
            × (match compile match_string list episode ≡ get_elem? (rules_of list) k)
            × (k < length list))
  unfolding first_from match rules_of
  first_from-match i [] episode = inl (refl, refl)
  first_from-match i (entry ∷ list) episode =
      elim (Bool-cases (applies compile match_string entry episode)) [
        | inl applied ↦ inr (
          0,
          rw (applied, first_from, match) (ap (λ (n : ℕ). some n) (omega arith)),
          rw applied refl,
          omega arith,
        )
        | inr skipped ↦ elim (first_from-match (i + 1) list episode) [
          | inl (a, b) ↦ inl (rw (skipped, first_from, match) a, rw skipped b)
          | inr (k, a, b, c) ↦ inr (
            suc k,
            rw (skipped, first_from, match) (a ∙ ap (λ (n : ℕ). some n) (omega arith)),
            rw skipped b,
            omega arith,
          )
        ]
      ]

  first-match :
      (compiled : List (CompiledRule P)) (episode : Episode)
      → Names
          (rules_of compiled)
          (first_from compile match_string 0 compiled episode)
          (match compile match_string compiled episode)
  first-match compiled episode = elim (first_from-match 0 compiled episode) [
    | inl (a, b) ↦ subst₂ (Names (rules_of compiled)) (sym a) (sym b) tt
    | inr (k, a, b, c) ↦
        let (rule, found) = rules_of-get compiled k c in
        subst₂ (Names (rules_of compiled)) (sym (a ∙ ap (λ (n : ℕ). some n) (zero_plus k)))
          (sym (b ∙ found)) found
  ]

  pub compile_rules-rules :
      (list : List Rule) {compiled : List (CompiledRule P)}
      → compile_rules compile match_string list ≡ ok compiled
      → rules_of compiled ≡ list
  unfolding compile_rules
  compile_rules-rules list e = elim (Bool-cases (ltb max_rules (length list))) [
    | inl many ↦ absurd (cc (rw (many, compile_rules) at e))
    | inr few ↦ compile_from-rules 0 list (rw (few, compile_rules) at e)
  ]

  deciding-match :
      (compiled : List (CompiledRule P)) (episodes : List Episode)
      → NamesAll
          (rules_of compiled)
          (deciding_from compile match_string compiled episodes)
          (map (match compile match_string compiled) episodes)
  unfolding deciding_from
  deciding-match compiled [] = tt
  deciding-match compiled (episode ∷ episodes) =
      (first-match compiled episode, deciding-match compiled episodes)

  -- Where the rules are valid, DecidingRules gives for each episode, in order, the index in the list of
  -- the rule that the feed hides or tags it by, and none exactly where no rule matches it.
  pub deciding_rules-match :
      (list : List Rule) (episodes : List Episode) {compiled : List (CompiledRule P)}
      → compile_rules compile match_string list ≡ ok compiled
      → (deciding : List (Option ℕ)) × (deciding_rules compile match_string list episodes
          ≡ some deciding)
        × NamesAll list deciding (map (match compile match_string compiled) episodes)
  unfolding deciding_rules
  deciding_rules-match list episodes {compiled} e = (
    deciding_from compile match_string compiled episodes,
    rw (e, deciding_rules) refl,
    subst
        (λ l.
          NamesAll l (deciding_from compile match_string compiled episodes)
            (map (match compile match_string compiled) episodes))
        (compile_rules-rules list e) (deciding-match compiled episodes),
  )
