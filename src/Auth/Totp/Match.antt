-- ===== src/Auth/Totp/Match.antt =====
-- Which codes are taken (auth/totp.go, matchTOTP).
use Prim.Native.String.{String}
use solstein.Base.{
  ℕ, ◌+◌, ◌-◌, ◌≤◌, ◌<◌, ◌≡◌, ◌⊎◌, refl, sym, subst, inl, inr, Option, none, some, some-injective,
  List, [], ◌∷◌, ◌==◌, leb, bytes_equal, bytes_equal→eq, bytes_equal_refl, All, leb_false→lt,
  leb→le, Bool-cases, Option-cases, arith,
}
use solstein.Auth.Totp.{
  totp_code, totp_digits, totp_skew, totp_step, match_candidates, match_key, match_totp,
  without_spaces, byte_length,
}

module _ (hmac : List ℕ → List ℕ → List ℕ) where
  -- A step after the last with the code.
  abbrev Fits : List ℕ → List ℕ → ℕ → ℕ → Type 0
  Fits key code last step = (last < step) × (totp_code hmac key step totp_digits ≡ code)

  abbrev Taken : (ℕ → Type 0) → List ℕ → List ℕ → ℕ → Option ℕ → Type 0
  Taken P key code last (some step) = P step × Fits key code last step
  Taken P key code last none = Unit

  match_candidates-Taken :
      (P : ℕ → Type 0) (key code : List ℕ) (last : ℕ) (xs : List ℕ)
      → All P xs
      → Taken P key code last (match_candidates hmac key code last xs)
  unfolding match_candidates
  match_candidates-Taken P key code last [] all = tt
  match_candidates-Taken P key code last (x ∷ xs) (p, all) = elim (Bool-cases (leb x last)) [
    | inl old ↦ rw old (match_candidates-Taken P key code last xs all)
    | inr new ↦ elim (Bool-cases (bytes_equal (totp_code hmac key x totp_digits) code)) [
      | inl same ↦ rw (new, same) (p, (leb_false→lt x last new, bytes_equal→eq _ _ same))
      | inr other ↦ rw (new, other) (match_candidates-Taken P key code last xs all)
    ]
  ]

  match_candidates-none :
      (key code : List ℕ) (last : ℕ) (xs : List ℕ)
      → match_candidates hmac key code last xs ≡ none
      → All (λ x. ¬ Fits key code last x) xs
  unfolding match_candidates
  match_candidates-none key code last [] h = tt
  match_candidates-none key code last (x ∷ xs) h = elim (Bool-cases (leb x last)) [
    | inl old ↦ (
      λ (new, same). absurd (omega (arith, leb→le x last old, new)),
      match_candidates-none key code last xs (rw old at h),
    )
    | inr new ↦ elim (Bool-cases (bytes_equal (totp_code hmac key x totp_digits) code)) [
      | inl same ↦ absurd (cc (rw (new, same) at h))
      | inr other ↦ (
        λ (_, same). absurd (let k = rw same at other in cc (k, bytes_equal_refl code)),
        match_candidates-none key code last xs (rw (new, other) at h),
      )
    ]
  ]

  -- A step at most one from now, after the last, whose code under the key is the one given, but for
  -- spaces.
  abbrev pub Matches : Option (List ℕ) → List ℕ → ℕ → ℕ → ℕ → Type 0
  Matches held code now last step =
      (key : List ℕ) × (held ≡ some key)
      × (byte_length (without_spaces code) ≡ totp_digits)
      × (step ≤ totp_step now + totp_skew)
      × (totp_step now ≤ step + totp_skew)
      × (last < step)
      × (totp_code hmac key step totp_digits ≡ without_spaces code)

  abbrev pub IsMatch : Option (List ℕ) → List ℕ → ℕ → ℕ → Option ℕ → Type 0
  IsMatch held code now last (some step) = Matches held code now last step
  IsMatch held code now last none = (step : ℕ) → ¬ Matches held code now last step

  abbrev IsNear : ℕ → ℕ → Type 0
  IsNear current step = (step ≤ current + totp_skew) × (current ≤ step + totp_skew)

  near_cases :
      (current step : ℕ)
      → IsNear current step
      → (step ≡ current - totp_skew) ⊎ (step ≡ current) ⊎ (step ≡ current + totp_skew)
  near_cases current step near = elim (Bool-cases (step == current)) [
    | inl same ↦ inr (inl (ground (arith, same)))
    | inr other ↦ elim (Bool-cases (leb step current)) [
      | inl before ↦ inl (ground (arith, other, before, near))
      | inr after ↦ inr (inr (ground (arith, after, near)))
    ]
  ]

  match_key-IsMatch :
      (held : Option (List ℕ)) (code : List ℕ) (now last : ℕ)
      → IsMatch held code now last (match_key hmac code now last held)
  unfolding match_key
  match_key-IsMatch none code now last = λ step (key, wrong, _, _, _, _, _). absurd (cc wrong)
  match_key-IsMatch (some key) code now last =
      let text = without_spaces code in
      let current = totp_step now in
      let steps = (current - totp_skew) ∷ current ∷ (current + totp_skew) ∷ [] in
      elim (Bool-cases (byte_length text == totp_digits)) [
        | inr short ↦
            rw short (λ step (_, _, size, _, _, _, _). absurd (ground (arith, short, size)))
        | inl size ↦ elim (Option-cases (match_candidates hmac key text last steps)) [
          | inr (step, found) ↦
              let taken = match_candidates-Taken (IsNear current) key text last steps (
                (omega arith, omega arith),
                ((omega arith, omega arith), ((omega arith, omega arith), tt)),
              ) in
              let ((up, down), (new, same)) = rw found at taken in
              rw (size, found) (key, refl, ground (arith, size), up, down, new, same)
          | inl nothing ↦
              let (first, (second, (third, _))) =
                match_candidates-none key text last steps nothing in
              rw (size, nothing)
                λ step (other, held, _, up, down, new, same).
                  let fits : Fits key text last step = (
                    new,
                    subst (λ k. totp_code hmac k step totp_digits ≡ text)
                        (some-injective other key (sym held)) same,
                  ) in
                  elim (near_cases current step (up, down)) [
                    | inl low ↦ first (subst (Fits key text last) low fits)
                    | inr (inl middle) ↦ second (subst (Fits key text last) middle fits)
                    | inr (inr high) ↦ third (subst (Fits key text last) high fits)
                  ]
        ]
      ]

  -- What matchTOTP gives is a step at most one from now and after the last one, whose code is the one
  -- given but for spaces; it gives none only where there is no such step.
  pub match_totp-IsMatch :
      (key_of : String → Option (List ℕ)) (secret : String) (code : List ℕ) (now last : ℕ)
      → IsMatch (key_of secret) code now last (match_totp hmac key_of secret code now last)
  unfolding match_totp
  match_totp-IsMatch key_of secret code now last = match_key-IsMatch (key_of secret) code now last
