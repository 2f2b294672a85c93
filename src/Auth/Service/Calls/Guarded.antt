-- ===== src/Auth/Service/Calls/Guarded.antt =====
-- Signing in as a user with an authenticator (auth/service.go).
use Prim.Native.String.{String}
use text.Mathlib.Text.{◌==◌ as str_eq}
use solstein.Base.{
  and_left, ℕ, ◌≡◌, refl, inl, inr, true, not, ◌&&◌, ◌||◌, Option, none, some, List, [], ◌∷◌, ◌==◌,
  ltb, Bool-cases, bytes_equal,
}
use solstein.Auth.Limiter.{blocked, limit_per_user, limit_per_ip}
use solstein.Auth.Exec.{done, sign_in_expired}
use solstein.Auth.Exec.Triple.{
  Ends, Keeps, Ensures-weaken, Keeps-pure, Keeps-refuse, Keeps-modify, Keeps-if, Keeps-bind,
  Keeps-or_fail,
}
use solstein.Auth.Accounts.{
  User, Token, Kind, Scope, session_kind, sign_in_kind, ui_scope, totp_scope, is_kind, Accounts,
  has_scope,
}
use solstein.Auth.Accounts.Guard.{
  IsHeld, Asks, Guard, Keeps-find_user, Keeps-update_user, Keeps-create_token,
  Keeps-get_token_by_hash, Keeps-delete_tokens,
}
use solstein.Auth.Service.{
  World, Draws, Result, limited, check_limit, check_limits, failed_attempt, reset_limit, issue,
  next, signed_in, sign_in_step, check_new_password, min_password_length, max_password_length,
}
use solstein.Auth.Service.Calls.{opened_by, spent_by}

module _ (world : World) (id : ℕ) (name : String) (last : ℕ) where
  abbrev pub G : Accounts → Type 0
  G = Guard id name last

  limited-Ends :
      (until : Option ℕ) (s : Accounts)
      → G s
      → Ends (λ (_ : Unit) s. G s × Unit) G (limited until s)
  limited-Ends none s is = (is, tt)
  limited-Ends (some time) s is = is

  pub Keeps-check_limit :
      (key : String) (limit now : ℕ) → Keeps G (λ _. Unit) (check_limit key limit now)
  unfolding check_limit
  Keeps-check_limit key limit now = record {
    at = λ s is.
        limited-Ends (blocked s.limiter key limit now).1
          (record s { limiter = (blocked s.limiter key limit now).0 })
          (record { users = is.users; tokens = is.tokens });
  }

  pub Keeps-check_limits :
      (username client_ip : String) (now : ℕ)
      → Keeps G (λ _. Unit) (check_limits username client_ip now)
  unfolding check_limits
  Keeps-check_limits username client_ip now =
      Keeps-bind (λ _. Unit) (Keeps-check_limit _ limit_per_user now)
        (λ _ _. Keeps-check_limit _ limit_per_ip now)

  pub Keeps-failed_attempt :
      (username client_ip : String) (now : ℕ)
      → Keeps G (λ _. Unit) (failed_attempt username client_ip now)
  unfolding failed_attempt
  Keeps-failed_attempt username client_ip now =
      Keeps-modify (λ s is. record { users = is.users; tokens = is.tokens })

  pub Keeps-reset_limit : (username : String) → Keeps G (λ _. Unit) (reset_limit username)
  unfolding reset_limit
  Keeps-reset_limit username =
      Keeps-modify (λ s is. record { users = is.users; tokens = is.tokens })

  pub Keeps-issue :
      (draws : Draws) (now user_id : ℕ) (kind : Kind) (scopes : List Scope) (expires : ℕ)
      → ((user_id == id) ≡ true
          → is_kind kind sign_in_kind ≡ true
          → has_scope totp_scope scopes ≡ true)
      → Keeps G (λ _. Unit) (issue world draws now user_id kind scopes expires)
  unfolding issue
  Keeps-issue draws now user_id kind scopes expires asks =
      Keeps-bind (λ _. Unit) (Keeps-create_token id name last _ asks) (λ _ _. Keeps-pure tt)

  -- The session is another user's, or there is none yet.
  abbrev pub IsQuiet : Result → Type 0
  IsQuiet result = spent_by world id (opened_by (done result)) ≡ []

  pub Keeps-next_step :
      (draws : Draws) (now : ℕ) (user : User) (step : Scope) (steps : List Scope)
      → ((user.id == id) ≡ true → has_scope totp_scope (step ∷ steps) ≡ true)
      → Keeps G IsQuiet (next world draws now user (step ∷ steps))
  unfolding next
  Keeps-next_step draws now user step steps asks =
      Keeps-bind (λ _. Unit)
        (Keeps-issue draws now user.id sign_in_kind (step ∷ steps) _ (λ same _. asks same))
        (λ _ _. Keeps-pure refl)

  pub Keeps-session :
      (draws : Draws) (now : ℕ) (user : User)
      → IsHeld id name last user
      → Keeps G
          (λ result. spent_by world id (opened_by (done result)) ≡ spent_by world id (some user))
          (next world draws now user [])
  unfolding next
  Keeps-session draws now user held =
      Keeps-bind (λ _. Unit) (Keeps-delete_tokens id name last _)
        λ _ _.
          Keeps-bind (λ _. Unit)
            (Keeps-issue draws now user.id session_kind (ui_scope ∷ []) _
              (λ _ wrong. absurd (cc wrong)))
            λ _ _.
              Keeps-bind (λ _. Unit) (Keeps-update_user id name last (signed_in now user) held)
                λ _ _. Keeps-pure refl

  -- A step of the user's that leaves a code to be asked for opens no session.
  pub Keeps-next :
      (draws : Draws) (now : ℕ) (user : User) (steps : List Scope)
      → IsHeld id name last user
      → ((user.id == id) ≡ true → has_scope totp_scope steps ≡ true)
      → Keeps G IsQuiet (next world draws now user steps)
  Keeps-next draws now user (step ∷ steps) held asks =
      Keeps-next_step draws now user step steps asks
  Keeps-next draws now user [] held asks = elim (Bool-cases (user.id == id)) [
    | inl same ↦ absurd (cc (asks same))
    | inr else' ↦
        Ensures-weaken (λ result s (is, eq). (is, (let k = rw else' at eq in k))) (λ s is. is)
          (Keeps-session draws now user held)
  ]

  -- A step of a sign-in is by the user that its token names.
  abbrev pub IsStep : Scope → Token × User → Type 0
  IsStep scope (token, user) =
      Asks id token
      × (is_kind token.kind sign_in_kind ≡ true)
      × IsHeld id name last user
      × ((user.id == token.user_id) ≡ true)

  pub Keeps-sign_in_step :
      (now : ℕ) (raw : String) (scope : Scope)
      → Keeps G (IsStep scope) (sign_in_step world now raw scope)
  unfolding sign_in_step
  Keeps-sign_in_step now raw scope =
      Keeps-bind
        (λ token.
          Asks id token
          × ((is_kind token.kind sign_in_kind && str_eq token.hash (world.hash_token raw)) ≡ true))
        (Keeps-or_fail sign_in_expired (Keeps-get_token_by_hash id name last sign_in_kind _))
        λ token (asks, found).
          Keeps-if (ltb token.expires_at now || not (has_scope scope token.scopes))
            (λ late. Keeps-refuse)
            (λ valid.
              Keeps-bind (λ user. IsHeld id name last user × ((user.id == token.user_id) ≡ true))
                (Keeps-or_fail sign_in_expired
                  (Keeps-find_user id name last (λ user. user.id == token.user_id)))
                (λ user (held, named). Keeps-pure (asks, and_left _ _ found, held, named)))

  pub Keeps-check_new_password :
      (password repeat : List ℕ) → Keeps G (λ _. Unit) (check_new_password world password repeat)
  unfolding check_new_password
  Keeps-check_new_password password repeat =
      let length = world.rune_count password in
      Keeps-if (not (bytes_equal password repeat)) (λ _. Keeps-refuse)
        (λ _.
          Keeps-if (ltb length min_password_length || ltb max_password_length length)
            (λ _. Keeps-refuse) (λ _. Keeps-pure tt))
