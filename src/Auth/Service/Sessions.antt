-- ===== src/Auth/Service/Sessions.antt =====
-- Sessions, and a signed-in user's account (auth/service.go).
use Prim.Native.String.{String}
use text.Mathlib.Text.{◌==◌ as str_eq}
use solstein.Base.{
  ℕ, ◌+◌, ◌-◌, true, ◌||◌, Option, none, some, List, [], ltb, leb, min, if◌then◌else◌,
}
use solstein.Auth.Exec.{
  Exec, no_session, wrong_password, wrong_code, no_pending_totp, ◌>>=◌, ◌>>◌, pure, refuse, or_fail,
  attempt,
}
use solstein.Auth.Totp.{match_totp}
use solstein.Auth.Accounts.{
  User, Token, session_kind, Accounts, get_user, update_user, get_token_by_hash, touch_token,
  delete_token, delete_user_tokens,
}
use solstein.Auth.Service.{
  World, Draws, session_idle, session_max, touch_every, check_new_password, with_password,
  without_totp, is_match, next,
}

-- The use of a session is recorded, and moves its end on.
unfoldable pub touch : ℕ → Token → Exec Accounts (Option Unit)
touch now token =
    if leb touch_every (now - token.last_used_at)
    then attempt
        (touch_token token.id now (min (now + session_idle) (token.created_at + session_max)))
    else pure none

module _ (world : World) where
  unfoldable pub session_of : ℕ → Token → Exec Accounts User
  unfolding touch
  session_of now token =
      if ltb token.expires_at now || ltb session_max (now - token.created_at)
      then refuse no_session
      else (do user ← or_fail no_session (get_user token.user_id); touch now token; pure user)

  unfoldable pub session : ℕ → String → Exec Accounts User
  unfolding session_of
  session now raw = if str_eq raw "" then refuse no_session else (do
    token ← or_fail no_session (get_token_by_hash session_kind (world.hash_token raw))
    session_of now token)

  unfoldable pub sign_out_of : Option Token → Exec Accounts Unit
  sign_out_of none = pure tt
  sign_out_of (some token) = do delete_token token.id; pure tt

  unfoldable pub sign_out : String → Exec Accounts Unit
  unfolding sign_out_of
  sign_out raw = do
    token ← attempt (get_token_by_hash session_kind (world.hash_token raw))
    sign_out_of token

  -- The user's other sessions end.
  unfoldable pub change_password : Draws → ℕ → ℕ → List ℕ → List ℕ → List ℕ → Exec Accounts String
  change_password draws now user_id current password repeat = do
    user ← get_user user_id
    if is_match (world.password_matches current user.password_hash)
        then (do
          check_new_password world password repeat
          let user = with_password world draws password user
          update_user user
          delete_user_tokens user.id
          result ← next world draws now user []
          pure result.token)
        else refuse wrong_password

  unfoldable pub begin_totp : Draws → ℕ → Exec Accounts String
  begin_totp draws user_id = do
    user ← get_user user_id
    if str_eq user.totp_pending ""
        then (do update_user (record user { totp_pending = draws.secret }); pure draws.secret)
        else pure user.totp_pending

  unfoldable pub with_totp : ℕ → User → User
  with_totp step user = record user {
    totp_secret = user.totp_pending;
    totp_pending = "";
    totp_enabled = true;
    totp_last_step = step;
  }

  unfoldable pub confirm_with : User → Option ℕ → Exec Accounts Unit
  unfolding with_totp
  confirm_with user none = refuse wrong_code
  confirm_with user (some step) = update_user (with_totp step user)

  unfoldable pub confirm_totp : ℕ → ℕ → List ℕ → Exec Accounts Unit
  unfolding confirm_with
  confirm_totp now user_id code = do
    user ← get_user user_id
    if str_eq user.totp_pending ""
        then refuse no_pending_totp
        else confirm_with user (match_totp world.hmac world.key_of user.totp_pending code now 0)

  unfoldable pub disable_totp : ℕ → List ℕ → Exec Accounts Unit
  disable_totp user_id password = do
    user ← get_user user_id
    if is_match (world.password_matches password user.password_hash)
        then update_user (without_totp user)
        else refuse wrong_password
