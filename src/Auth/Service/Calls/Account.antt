-- ===== src/Auth/Service/Calls/Account.antt =====
-- Sessions, accounts and the console: no call signs anyone in (auth/service.go).
use Prim.Native.String.{String}
use text.Mathlib.Text.{◌==◌ as str_eq}
use solstein.Base.{
  ℕ, ◌+◌, ◌-◌, ◌≡◌, true, false, ◌||◌, Option, none, some, List, ◌==◌, ltb, leb, min, arith,
}
use solstein.Auth.Exec.{Exec, no_session}
use solstein.Auth.Exec.Triple.{
  Keeps, Ensures-weaken, Keeps-pure, Keeps-refuse, Keeps-if, Keeps-bind, Keeps-or_fail,
  Keeps-attempt,
}
use solstein.Auth.Totp.{match_totp}
use solstein.Auth.Accounts.{User, Token, session_kind, Accounts}
use solstein.Auth.Accounts.Guard.{
  IsHeld, Keeps-find_user, Keeps-update_user, Keeps-get_token_by_hash, Keeps-touch_token,
  Keeps-delete_tokens,
}
use solstein.Auth.Service.{World, Draws, with_password, is_match}
use solstein.Auth.Service.{without_totp, touch_every, session_max, session_idle}
use solstein.Auth.Service.Sessions.{
  touch, session_of, session, sign_out_of, sign_out, change_password, begin_totp, with_totp,
  confirm_with, confirm_totp, disable_totp,
}
use solstein.Auth.Service.Calls.Guarded.{Keeps-session, Keeps-check_new_password, G}

module _ (world : World) (id : ℕ) (name : String) (last : ℕ) where
  abbrev pub K : {A : Type 0} → Exec Accounts A → Type 0
  K m = Keeps (G world id name last) (λ _. Unit) m

  pub any :
      {A : Type 0} {X : A → Type 0} {m : Exec Accounts A} → Keeps (G world id name last) X m → K m
  any is = Ensures-weaken (λ _ s (g, _). (g, tt)) (λ s g. g) is

  abbrev pub Held : User → Type 0
  Held = IsHeld id name last

  Keeps-touch : (now : ℕ) (token : Token) → K (touch now token)
  unfolding touch
  Keeps-touch now token =
      Keeps-if (leb touch_every (now - token.last_used_at))
        (λ _. any (
          Keeps-attempt (
            Keeps-touch_token id name last token.id now
              (min (now + session_idle) (token.created_at + session_max)))))
        (λ _. Keeps-pure tt)

  Keeps-session_of : (now : ℕ) (token : Token) → K (session_of world now token)
  unfolding session_of
  Keeps-session_of now token =
      Keeps-if (ltb token.expires_at now || ltb session_max (now - token.created_at))
        (λ _. Keeps-refuse)
        (λ _.
          Keeps-bind (λ _. Unit)
            (any (
              Keeps-or_fail no_session
                (Keeps-find_user id name last (λ user. user.id == token.user_id))))
            (λ _ _. Keeps-bind (λ _. Unit) (Keeps-touch now token) (λ _ _. Keeps-pure tt)))

  pub Keeps-session_use : (now : ℕ) (raw : String) → K (session world now raw)
  unfolding session
  Keeps-session_use now raw =
      Keeps-if (str_eq raw "") (λ _. Keeps-refuse)
        (λ _.
          Keeps-bind (λ _. Unit)
            (any (
              Keeps-or_fail no_session
                (Keeps-get_token_by_hash id name last session_kind (world.hash_token raw))))
            (λ token _. Keeps-session_of now token))

  Keeps-sign_out_of : (token : Option Token) → K (sign_out_of world token)
  unfolding sign_out_of
  Keeps-sign_out_of none = Keeps-pure tt
  Keeps-sign_out_of (some token) =
      Keeps-bind (λ _. Unit) (Keeps-delete_tokens id name last (λ t. t.id == token.id))
        (λ _ _. Keeps-pure tt)

  pub Keeps-sign_out : (raw : String) → K (sign_out world raw)
  unfolding sign_out
  Keeps-sign_out raw =
      Keeps-bind (λ _. Unit)
        (any (
          Keeps-attempt (Keeps-get_token_by_hash id name last session_kind (world.hash_token raw))))
        (λ token _. Keeps-sign_out_of token)

  pub Keeps-change_password :
      (draws : Draws) (now user_id : ℕ) (current password repeat : List ℕ)
      → K (change_password world draws now user_id current password repeat)
  unfolding change_password
  Keeps-change_password draws now user_id current password repeat =
      Keeps-bind (λ user. Held user × ((user.id == user_id) ≡ true))
        (Keeps-find_user id name last (λ user. user.id == user_id))
        λ user (held, _).
          Keeps-if (is_match (world.password_matches current user.password_hash))
            (λ _.
              Keeps-bind (λ _. Unit) (Keeps-check_new_password world id name last password repeat)
                λ _ _.
                  Keeps-bind (λ _. Unit)
                    (Keeps-update_user id name last (with_password world draws password user) held)
                    λ _ _.
                      Keeps-bind (λ _. Unit)
                        (Keeps-delete_tokens id name last (λ t. t.user_id == user.id))
                        λ _ _.
                          Keeps-bind (λ _. Unit)
                            (any (
                              Keeps-session world id name last draws now
                                (with_password world draws password user) held))
                            (λ _ _. Keeps-pure tt))
            (λ _. Keeps-refuse)

  pub Keeps-begin_totp : (draws : Draws) (user_id : ℕ) → K (begin_totp world draws user_id)
  unfolding begin_totp
  Keeps-begin_totp draws user_id =
      Keeps-bind (λ user. Held user × ((user.id == user_id) ≡ true))
        (Keeps-find_user id name last (λ user. user.id == user_id))
        λ user (held, _).
          Keeps-if (str_eq user.totp_pending "")
            (λ _.
              Keeps-bind (λ _. Unit)
                (Keeps-update_user id name last (record user { totp_pending = draws.secret }) held)
                (λ _ _. Keeps-pure tt))
            (λ _. Keeps-pure tt)

  -- A row of another user is free to change.
  not_mine :
      (user : User) (user_id : ℕ)
      → (user.id == user_id) ≡ true
      → (user_id == id) ≡ false
      → (user.id == id) ≡ false
  not_mine user user_id same other = ground arith

  Keeps-confirm_with :
      (user : User) (step : Option ℕ) → (user.id == id) ≡ false → K (confirm_with world user step)
  unfolding confirm_with with_totp
  Keeps-confirm_with user none other = Keeps-refuse
  Keeps-confirm_with user (some step) other =
      Keeps-update_user id name last (with_totp world step user) (λ same. absurd (cc (other, same)))

  pub Keeps-confirm_totp :
      (now user_id : ℕ) (code : List ℕ)
      → (user_id == id) ≡ false
      → K (confirm_totp world now user_id code)
  unfolding confirm_totp
  Keeps-confirm_totp now user_id code other =
      Keeps-bind (λ user. Held user × ((user.id == user_id) ≡ true))
        (Keeps-find_user id name last (λ user. user.id == user_id))
        λ user (held, same).
          Keeps-if (str_eq user.totp_pending "") (λ _. Keeps-refuse)
            (λ _.
              Keeps-confirm_with user
                (match_totp world.hmac world.key_of user.totp_pending code now 0)
                (not_mine user user_id same other))

  pub Keeps-disable_totp :
      (user_id : ℕ) (password : List ℕ)
      → (user_id == id) ≡ false
      → K (disable_totp world user_id password)
  unfolding disable_totp
  Keeps-disable_totp user_id password other =
      Keeps-bind (λ user. Held user × ((user.id == user_id) ≡ true))
        (Keeps-find_user id name last (λ user. user.id == user_id))
        λ user (held, same).
          Keeps-if (is_match (world.password_matches password user.password_hash))
            (λ _.
              Keeps-update_user id name last (without_totp user)
                (λ mine. absurd (cc (not_mine user user_id same other, mine))))
            (λ _. Keeps-refuse)
