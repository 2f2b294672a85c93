-- ===== src/Exits/Budget/Fit.antt =====
-- What it means that exits fit (modules/exits/budget.go).
use Prim.Native.String.{String}
use text.Mathlib.Text.{◌==◌ as str_eq}
use text.Mathlib.TextEquality.{eq_iff}
use solstein.Base.{
  ℕ, ◌≤◌, ◌<◌, ◌≡◌, refl, sym, ap, ◌∙◌, inl, inr, Bool, true, false, ◌&&◌, ◌||◌, not, none, some,
  List, [], ◌∷◌, ◌++◌, ◌==◌, leb, if◌then◌else◌, length, Bool-cases, Option-cases, arith,
}
use solstein.Exits.Budget.{Module, find, lists, provider_of, want, want_all, all_fit, exits_fit}

-- The exits of one provider among those named, each once.
unfoldable pub exits_of : Module → String → List String → List String → List String
exits_of config provider [] names = names
exits_of config provider (name ∷ rest) names = elim (provider_of config name) [
  | none ↦ exits_of config provider rest names
  | some p ↦
      exits_of config provider rest
        (if str_eq p provider && not (lists names name) then names ++ name ∷ [] else names)
]

-- The exits that a map has for a provider.
abbrev wanted_of : List (String × List String) → String → List String
wanted_of [] provider = []
wanted_of ((p, names) ∷ wanted) provider =
    let rest = wanted_of wanted provider in if str_eq p provider then names else rest

str_refl : (s : String) → str_eq s s ≡ true
str_refl s = (eq_iff s s).1 refl

wanted-want :
    (p name provider : String) (wanted : List (String × List String))
    → wanted_of (want p name wanted) provider ≡ (
        if str_eq p provider && not (lists (wanted_of wanted provider) name)
        then wanted_of wanted provider ++ name ∷ []
        else wanted_of wanted provider)
unfolding want
wanted-want p name provider [] = elim (Bool-cases (str_eq p provider)) [
  | inl here ↦ rw here refl
  | inr other ↦ rw other refl
]
wanted-want p name provider ((q, names) ∷ wanted) = elim (Bool-cases (str_eq q p)) [
  | inl same ↦
      let swap : str_eq p provider ≡ str_eq q provider =
        ap (λ n. str_eq n provider) (sym ((eq_iff q p).0 same)) in
      rw (same, swap)
        (elim (Bool-cases (str_eq q provider)) [
          | inl here ↦ rw here (elim (Bool-cases (lists names name)) [
            | inl known ↦ rw known refl
            | inr new ↦ rw new refl
          ])
          | inr other ↦ rw other refl
        ])
  | inr apart ↦ rw apart (elim (Bool-cases (str_eq q provider)) [
    | inl here ↦ elim (Bool-cases (str_eq p provider)) [
      | inr other ↦ rw (here, other) refl
      | inl there ↦
          let q_is_p = (eq_iff q provider).0 here ∙ sym ((eq_iff p provider).0 there) in
          absurd (cc (apart, (eq_iff q p).1 q_is_p))
    ]
    | inr other ↦ rw other (wanted-want p name provider wanted)
  ])
]

wanted-want_all :
    (config : Module) (names : List String) (provider : String)
    (wanted : List (String × List String))
    → wanted_of (want_all config names wanted) provider
      ≡ exits_of config provider names (wanted_of wanted provider)
unfolding want_all exits_of
wanted-want_all config [] provider wanted = refl
wanted-want_all config (name ∷ names) provider wanted =
    elim (Option-cases (provider_of config name)) [
      | inl direct ↦ rw (direct, want_all, exits_of) (wanted-want_all config names provider wanted)
      | inr (p, found) ↦
          rw (found, want_all, exits_of)
            (wanted-want_all config names provider (want p name wanted)
              ∙ ap (exits_of config provider names) (wanted-want p name provider wanted))
    ]

-- Room for the exits of every provider that has a limit.
abbrev pub HasRoom : Module → (String → List String) → Type 0
HasRoom config exits =
    (provider : String) (limit : ℕ)
    → find config.limits provider ≡ some limit
    → 0 < limit
    → length (exits provider) ≤ limit

kept : (test rest : Bool) → (if test then rest else false) ≡ true → rest ≡ true
kept true rest h = h
kept false rest h = absurd (cc h)

all_fit-HasRoom :
    (config : Module) (wanted : List (String × List String))
    → all_fit config wanted ≡ true
    → HasRoom config (wanted_of wanted)
unfolding all_fit
all_fit-HasRoom config [] fit provider limit found pos = omega arith
all_fit-HasRoom config ((q, names) ∷ wanted) fit provider limit found pos =
    elim (Bool-cases (str_eq q provider)) [
      | inl here ↦
          let same : find config.limits q ≡ some limit =
            ap (find config.limits) ((eq_iff q provider).0 here) ∙ found in
          let test = rw (same, all_fit) at fit in rw here (ground (arith, test))
      | inr other ↦ rw other (elim (Option-cases (find config.limits q)) [
        | inl unlimited ↦
            all_fit-HasRoom config wanted (rw (unlimited, all_fit) at fit) provider limit found pos
        | inr (l, known) ↦
            let test = rw (known, all_fit) at fit in
            let rest : all_fit config wanted ≡ true =
              kept (l == 0 || leb (length names) l) (all_fit config wanted) test in
            all_fit-HasRoom config wanted rest provider limit found pos
      ])
    ]

-- Where the exits fit, each provider has room for all of its exits among them at once.
pub exits_fit-HasRoom :
    (config : Module) (names : List String)
    → exits_fit config names ≡ true
    → HasRoom config (λ provider. exits_of config provider names [])
unfolding exits_fit
exits_fit-HasRoom config names fit provider limit found pos =
    let room = all_fit-HasRoom config (want_all config names []) fit provider limit found pos in
    let same = wanted-want_all config names provider [] in omega (arith, room, ap length same)
