-- ===== src/Auth/Service/Calls/Codes.antt =====
-- A code, as the last step of signing in (auth/service.go).
use Prim.Native.String.{String}
use text.Mathlib.Text.{◌==◌ as str_eq}
use solstein.Base.{
  ℕ, ◌≤◌, ◌<◌, ◌≡◌, ◌⊎◌, refl, ◌∙◌, subst, inl, inr, true, false, Option, none, some, List, [], ◌∷◌,
  ◌==◌, Bool-cases, arith,
}
use solstein.Auth.Exec.{Exec, done, ◌>>◌}
use solstein.Auth.Exec.Triple.{
  Ensures, Keeps, Ensures-bind, Ensures-weaken, Ensures-if, Ensures-refuse, Ensures-given,
  Keeps-refuse, Keeps-bind,
}
use solstein.Auth.Totp.Match.{IsMatch, match_totp-IsMatch}
use solstein.Auth.Totp.{match_totp}
use solstein.Auth.Accounts.{
  User, Token, set_password_scope, totp_scope, Accounts, has_scope, update_user, delete_token,
}
use solstein.Auth.Accounts.Guard.{
  IsHeld, Guarded, update_user-Guarded, Keeps-update_user, Keeps-delete_tokens,
}
use solstein.Auth.Service.{World, Draws, Result, next, spend_code, verify_totp}
use solstein.Auth.Service.Calls.{opened_by, spent_by}
use solstein.Auth.Service.Calls.Guarded.{
  Keeps-check_limits, Keeps-failed_attempt, Keeps-session, Keeps-next, Keeps-sign_in_step, IsStep,
  IsQuiet, G,
}

-- From `last` on, the user's authenticator came to a last step, later where a session was opened.
abbrev pub Moved : World → ℕ → String → ℕ → List ℕ → Accounts → Type 0
Moved world id name last opened accounts =
    (last' : ℕ) × (last ≤ last')
    × Guarded id name last' accounts
    × ((opened ≡ []) ⊎ (opened ≡ last' ∷ []) × (last < last'))

abbrev pub Later : ℕ → String → ℕ → Accounts → Type 0
Later id name last accounts = (last' : ℕ) × (last ≤ last') × Guarded id name last' accounts

module _ (world : World) (id : ℕ) (name : String) (last : ℕ) where
  abbrev pub Opens : Result → Accounts → Type 0
  Opens result = Moved world id name last (spent_by world id (opened_by (done result)))

  -- What keeps the last step where it is, and opens no session of the user.
  pub quiet :
      {m : Exec Accounts Result}
      → Keeps (G world id name last) (IsQuiet world id name last) m
      → Ensures (G world id name last) m Opens (Later id name last)
  quiet is =
      Ensures-weaken (λ result s (g, none_opened). (last, omega arith, g, inl none_opened))
        (λ s g. (last, omega arith, g)) is

  own :
      (draws : Draws) (now step : ℕ) (token : Token) (user : User)
      → (user.id == id) ≡ true
      → IsHeld id name last user
      → last < step
      → Ensures
          (G world id name last)
          (do
            update_user (record user { totp_last_step = step })
            delete_token token.id
            next world draws now (record user { totp_last_step = step }) [])
          Opens
          (Later id name last)
  own draws now step token user mine held new =
      let after = record user { totp_last_step = step } in
      let held' : IsHeld id name step after = λ same. ((held same).0, refl, (held same).2) in
      let moves =
        λ (x : User) (other : (x.id == after.id) ≡ false) (h : IsHeld id name last x)
            (same : (x.id == id) ≡ true).
          absurd
            {A = (x.totp_enabled ≡ true)
              × (x.totp_last_step ≡ step)
              × (str_eq x.username name ≡ true)}
            (ground (arith, other, same, mine)) in
      Ensures-bind (λ _ s. Guarded id name step s × Unit)
        (Ensures-weaken (λ _ s h. h) (λ s g. (last, omega arith, g))
          (update_user-Guarded id name last step after moves held'))
        λ _.
          let rest =
            Keeps-bind (λ _. Unit) (Keeps-delete_tokens id name step (λ t. t.id == token.id))
              λ _ _. Keeps-session world id name step draws now after held' in
          Ensures-weaken
            (λ result s (g, opened).
              (step, omega (arith, new), g, inr (opened ∙ (rw mine refl), new)))
            (λ s g. (step, omega (arith, new), g)) (record { at = λ s (g, _). rest.at s g })

  spend_code-Opens :
      (draws : Draws) (now : ℕ) (client_ip : String) (token : Token) (user : User)
      (found : Option ℕ)
      → IsHeld id name last user
      → ((step : ℕ) → found ≡ some step → user.totp_last_step < step)
      → Ensures
          (G world id name last)
          (spend_code world draws now client_ip token user found)
          Opens
          (Later id name last)
  unfolding spend_code
  spend_code-Opens draws now client_ip token user none held new = quiet (
      Keeps-bind (λ _. Unit) (Keeps-failed_attempt world id name last user.username client_ip now)
        (λ _ _. Keeps-refuse))
  spend_code-Opens draws now client_ip token user (some step) held new =
      elim (Bool-cases (user.id == id)) [
        | inl mine ↦
            own draws now step token user mine held
              (subst (λ l. l < step) (held mine).1 (new step refl))
        | inr other ↦
            let after = record user { totp_last_step = step } in
            let held' : IsHeld id name last after = λ same. absurd (cc (other, same)) in
            quiet (
              Keeps-bind (λ _. Unit) (Keeps-update_user id name last after held')
                λ _ _.
                  Keeps-bind (λ _. Unit) (Keeps-delete_tokens id name last (λ t. t.id == token.id))
                    λ _ _.
                      Keeps-next world id name last draws now after [] held'
                        (λ same. absurd (cc (other, same))))
      ]

  later_code :
      (secret : String) (code : List ℕ) (now since : ℕ) (step : ℕ)
      → match_totp world.hmac world.key_of secret code now since ≡ some step
      → since < step
  later_code secret code now since step found =
      let is = match_totp-IsMatch world.hmac world.key_of secret code now since in
      let matches = subst (IsMatch world.hmac (world.key_of secret) code now since) found is in
      let (_, _, _, _, _, new, _) = matches in new

  pub verify_totp-Opens :
      (draws : Draws) (now : ℕ) (raw : String) (code : List ℕ) (client_ip : String)
      → Ensures
          (G world id name last)
          (verify_totp world draws now raw code client_ip)
          Opens
          (Later id name last)
  unfolding verify_totp
  verify_totp-Opens draws now raw code client_ip =
      let stays : (s : Accounts) → G world id name last s → Later id name last s =
        λ s g. (last, omega arith, g) in
      Ensures-bind (λ step s. G world id name last s × IsStep world id name last totp_scope step)
        (Ensures-weaken (λ _ s h. h) stays
          (Keeps-sign_in_step world id name last now raw totp_scope))
        λ (token, user). Ensures-given λ (asks, kind, held, named).
          Ensures-if (has_scope set_password_scope token.scopes) (λ _. Ensures-refuse stays)
            λ _.
              Ensures-bind (λ _ s. G world id name last s × Unit)
                (Ensures-weaken (λ _ s h. h) stays
                  (Keeps-check_limits world id name last user.username client_ip now))
                λ _. Ensures-given λ _.
                  spend_code-Opens draws now client_ip token user
                    (match_totp world.hmac world.key_of user.totp_secret code now
                      user.totp_last_step)
                    held (later_code user.totp_secret code now user.totp_last_step)
