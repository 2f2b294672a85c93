-- ===== src/Auth/Service/Calls/SignIn.antt =====
-- The password and a new password, as steps of signing in (auth/service.go).
use Prim.Native.String.{String}
use text.Mathlib.Text.{◌==◌ as str_eq}
use solstein.Base.{
  ℕ, ◌≡◌, refl, ◌∙◌, Bool, true, false, Option, none, some, List, [], ◌∷◌, ◌++◌, ◌==◌,
  if◌then◌else◌, arith,
}
use solstein.Auth.Exec.Triple.{Keeps, Given, Keeps-refuse, Keeps-if, Keeps-bind, Keeps-attempt}
use solstein.Auth.Accounts.{
  User, Token, Scope, ui_scope, set_password_scope, totp_scope, has_scope, without_scope,
}
use solstein.Auth.Accounts.Guard.{IsHeld, Keeps-find_user, Keeps-update_user, Keeps-delete_tokens}
use solstein.Auth.Service.{
  World, Draws, steps_for, sign_in_checked, sign_in_user, sign_in, with_password, set_password,
  is_match, wrong_password_or_user,
}
use solstein.Auth.Service.Calls.Guarded.{
  Keeps-check_limits, Keeps-failed_attempt, Keeps-reset_limit, Keeps-next, Keeps-sign_in_step,
  Keeps-check_new_password, IsStep, IsQuiet, G,
}

module _ (world : World) (id : ℕ) (name : String) (last : ℕ) where
  asks_code :
      (user : User) → user.totp_enabled ≡ true → has_scope totp_scope (steps_for user) ≡ true
  asks_code user on = rw on (of_change user.must_change_password)
    where
      of_change :
          (test : Bool)
          → has_scope totp_scope ((if test then set_password_scope ∷ [] else []) ++ totp_scope ∷ [])
            ≡ true
      of_change true = refl
      of_change false = refl

  Keeps-wrong_password :
      (now : ℕ) (username client_ip : String)
      → Keeps
          (G world id name last)
          (IsQuiet world id name last)
          (wrong_password_or_user world now username client_ip)
  unfolding wrong_password_or_user
  Keeps-wrong_password now username client_ip =
      Keeps-bind (λ _. Unit) (Keeps-failed_attempt world id name last username client_ip now)
        (λ _ _. Keeps-refuse)

  Keeps-sign_in_checked :
      (draws : Draws) (now : ℕ) (username client_ip : String) (user : User) (matches : Option Bool)
      → IsHeld id name last user
      → Keeps
          (G world id name last)
          (IsQuiet world id name last)
          (sign_in_checked world draws now username client_ip user matches)
  unfolding sign_in_checked
  Keeps-sign_in_checked draws now username client_ip user none held = Keeps-refuse
  Keeps-sign_in_checked draws now username client_ip user (some matches) held =
      Keeps-if _ (λ wrong. Keeps-wrong_password now username client_ip)
        (λ right.
          Keeps-bind (λ _. Unit) (Keeps-reset_limit world id name last username)
            (λ _ _.
              Keeps-next world id name last draws now user (steps_for user) held
                (λ same. asks_code user (held same).0)))

  Keeps-sign_in_user :
      (draws : Draws) (now : ℕ) (username : String) (password : List ℕ) (client_ip : String)
      (user : Option User)
      → Given (λ user. IsHeld id name last user × (str_eq user.username username ≡ true)) user
      → Keeps
          (G world id name last)
          (IsQuiet world id name last)
          (sign_in_user world draws now username password client_ip user)
  unfolding sign_in_user
  Keeps-sign_in_user draws now username password client_ip none given =
      Keeps-wrong_password now username client_ip
  Keeps-sign_in_user draws now username password client_ip (some user) (held, named) =
      Keeps-sign_in_checked draws now username client_ip user _ held

  pub Keeps-sign_in :
      (draws : Draws) (now : ℕ) (username : String) (password : List ℕ) (client_ip : String)
      → Keeps
          (G world id name last)
          (IsQuiet world id name last)
          (sign_in world draws now username password client_ip)
  unfolding sign_in
  Keeps-sign_in draws now username password client_ip =
      let name' = world.normal username in
      Keeps-bind (λ _. Unit) (Keeps-check_limits world id name last name' client_ip now)
        λ _ _.
          Keeps-bind
            (Given (λ user. IsHeld id name last user × (str_eq user.username name' ≡ true)))
            (Keeps-attempt (Keeps-find_user id name last (λ user. str_eq user.username name')))
            λ user given. Keeps-sign_in_user draws now name' _ client_ip user given

  without-totp :
      (scopes : List Scope)
      → has_scope totp_scope (without_scope set_password_scope scopes) ≡ has_scope totp_scope scopes
  without-totp [] = refl
  without-totp (ui_scope ∷ scopes) = without-totp scopes
  without-totp (set_password_scope ∷ scopes) = without-totp scopes
  without-totp (totp_scope ∷ scopes) = refl

  owner :
      (user : User) (token : Token)
      → (user.id == token.user_id) ≡ true
      → (user.id == id) ≡ true
      → (token.user_id == id) ≡ true
  owner user token same is = ground arith

  pub Keeps-set_password :
      (draws : Draws) (now : ℕ) (raw : String) (password repeat : List ℕ)
      → Keeps
          (G world id name last)
          (IsQuiet world id name last)
          (set_password world draws now raw password repeat)
  unfolding set_password
  Keeps-set_password draws now raw password repeat =
      Keeps-bind (IsStep world id name last set_password_scope)
        (Keeps-sign_in_step world id name last now raw set_password_scope)
        λ (token, user) (asks, kind, held, named).
          Keeps-bind (λ _. Unit) (Keeps-check_new_password world id name last password repeat)
            λ _ _.
              Keeps-if (is_match (world.password_matches password user.password_hash))
                (λ same. Keeps-refuse)
                (λ new.
                  Keeps-bind (λ _. Unit)
                    (Keeps-update_user id name last (with_password world draws password user) held)
                    (λ _ _.
                      Keeps-bind (λ _. Unit) (Keeps-delete_tokens id name last _)
                        (λ _ _.
                          Keeps-next world id name last draws now
                            (with_password world draws password user)
                            (without_scope set_password_scope token.scopes) held
                            (λ is.
                              without-totp token.scopes ∙ asks (owner user token named is) kind))))
