-- ===== src/Auth/Service.antt =====
-- Signing in (auth/service.go). Argon2id, SHA-256, HMAC, base32, the tables of Unicode, regular
-- expressions and random draws are parameters. Calls run one after another. The texts of errors, the
-- link for an authenticator app and the reads User, Users and PendingTOTP are left out.
pub mod Sessions
pub mod Console
pub mod Calls
use Prim.Native.String.{String, ◌++◌ as append}
use text.Mathlib.Text.{◌==◌ as str_eq}
use solstein.Base.{
  ℕ, ◌+◌, ◌-◌, ◌*◌, Bool, true, false, not, ◌&&◌, ◌||◌, Option, none, some, List, [], ◌∷◌, ◌++◌,
  ltb, leb, if◌then◌else◌, length, take, bytes_equal,
}
use solstein.Auth.Limiter.{blocked, fail, reset, limit_per_user, limit_per_ip}
use solstein.Auth.Exec.{
  Exec, Failure, Reply, done, failed, wrong_credentials, wrong_code, wrong_password, no_session,
  sign_in_expired, invalid_username, password_rules, passwords_differ, password_reused,
  no_pending_totp, bad_hash, too_many_attempts, ◌>>=◌, ◌>>◌, pure, refuse, modify, or_fail, attempt,
}
use solstein.Auth.Totp.{match_totp}
use solstein.Auth.Accounts.{
  User, Token, Kind, Scope, session_kind, sign_in_kind, ui_scope, set_password_scope, totp_scope,
  Accounts, get_user, get_user_by_username, update_user, create_user, delete_user_row, create_token,
  get_token_by_hash, touch_token, delete_token, delete_user_tokens, delete_expired_tokens,
  has_scope, without_scope,
}

abbrev minute : ℕ
minute = 60 * 1000000000

abbrev pub session_idle : ℕ
session_idle = 7 * 24 * 60 * minute

abbrev pub session_max : ℕ
session_max = 30 * 24 * 60 * minute

abbrev pub sign_in_lifetime : ℕ
sign_in_lifetime = 10 * minute

abbrev pub one_time_lifetime : ℕ
one_time_lifetime = 24 * 60 * minute

abbrev pub touch_every : ℕ
touch_every = 5 * minute

abbrev pub min_password_length : ℕ
min_password_length = 10

abbrev pub max_password_length : ℕ
max_password_length = 256

-- The libraries that the service calls. A password is the list of its bytes; `normal` is ToLower of
-- TrimSpace, and no answer of `password_matches` stands for a stored hash that cannot be read.
pub record World : Type 0 where
  pub hash_password : ℕ → List ℕ → String
  pub password_matches : List ℕ → String → Option Bool
  pub hash_token : String → String
  pub hmac : List ℕ → List ℕ → List ℕ
  pub key_of : String → Option (List ℕ)
  pub normal : String → String
  pub is_username : String → Bool
  pub rune_count : List ℕ → ℕ

-- What a call draws at random, where it does.
pub record Draws : Type 0 where
  pub user_id : ℕ
  pub token_id : ℕ
  pub token : String
  pub salt : ℕ
  pub one_time : List ℕ
  pub secret : String

-- Where a sign-in stands after a step: the step left, or the session.
pub record Result : Type 0 where
  pub user : User
  pub next : Option Scope
  pub token : String

abbrev pub is_past : ℕ → Option ℕ → Bool
is_past now none = false
is_past now (some at) = ltb at now

-- The steps left after the password.
abbrev pub steps_for : User → List Scope
steps_for user =
    (if user.must_change_password then set_password_scope ∷ [] else [])
    ++ (if user.totp_enabled then totp_scope ∷ [] else [])

abbrev pub limited : Option ℕ → Exec Accounts Unit
limited none accounts = (done tt, accounts)
limited (some time) accounts = (failed (too_many_attempts time), accounts)

unfoldable pub check_limit : String → ℕ → ℕ → Exec Accounts Unit
check_limit key limit now accounts =
    let (limiter, until) = blocked accounts.limiter key limit now in
    limited until (record accounts { limiter = limiter })

unfoldable pub check_limits : String → String → ℕ → Exec Accounts Unit
unfolding check_limit
check_limits username client_ip now = do
  check_limit (append "user:" username) limit_per_user now
  check_limit (append "ip:" client_ip) limit_per_ip now

unfoldable pub failed_attempt : String → String → ℕ → Exec Accounts Unit
failed_attempt username client_ip now = modify λ accounts. record accounts {
  limiter = fail (fail accounts.limiter (append "user:" username) now) (append "ip:" client_ip) now;
}

unfoldable pub reset_limit : String → Exec Accounts Unit
reset_limit username =
    modify
      λ accounts. record accounts { limiter = reset accounts.limiter (append "user:" username) }

unfoldable pub check_new_password : World → List ℕ → List ℕ → Exec Accounts Unit
check_new_password world password repeat =
    let length = world.rune_count password in
    if not (bytes_equal password repeat)
    then refuse passwords_differ
    else if ltb length min_password_length || ltb max_password_length length
    then refuse password_rules
    else pure tt

abbrev pub without_totp : User → User
without_totp user = record user {
  totp_enabled = false;
  totp_secret = "";
  totp_pending = "";
  totp_last_step = 0;
}

abbrev pub signed_in : ℕ → User → User
signed_in now user = record user { last_sign_in_at = some now }

abbrev pub is_match : Option Bool → Bool
is_match none = false
is_match (some matches) = matches

module _ (world : World) where
  unfoldable pub issue : Draws → ℕ → ℕ → Kind → List Scope → ℕ → Exec Accounts String
  issue draws now user_id kind scopes expires = do
    create_token (record {
      id = draws.token_id;
      kind = kind;
      hash = world.hash_token draws.token;
      user_id = user_id;
      scopes = scopes;
      created_at = now;
      expires_at = expires;
      last_used_at = now;
    })
    pure draws.token

  -- A sign-in token for the steps left, or the session when none are.
  unfoldable pub next : Draws → ℕ → User → List Scope → Exec Accounts Result
  next draws now user (step ∷ steps) = do
    token ← issue draws now user.id sign_in_kind (step ∷ steps) (now + sign_in_lifetime)
    pure (record { user = user; next = some step; token = token })
  next draws now user [] = do
    delete_expired_tokens now
    token ← issue draws now user.id session_kind (ui_scope ∷ []) (now + session_idle)
    update_user (signed_in now user)
    pure (record { user = signed_in now user; next = none; token = token })

  unfoldable pub wrong_password_or_user : ℕ → String → String → Exec Accounts Result
  wrong_password_or_user now username client_ip = do
    failed_attempt username client_ip now
    refuse wrong_credentials

  -- No answer is a stored hash that cannot be read.
  unfoldable pub sign_in_checked :
      Draws → ℕ → String → String → User → Option Bool → Exec Accounts Result
  unfolding wrong_password_or_user
  sign_in_checked draws now username client_ip user none = refuse bad_hash
  sign_in_checked draws now username client_ip user (some matches) =
      if not matches || is_past now user.password_expires_at
      then wrong_password_or_user now username client_ip
      else (do reset_limit username; next draws now user (steps_for user))

  unfoldable pub sign_in_user :
      Draws → ℕ → String → List ℕ → String → Option User → Exec Accounts Result
  unfolding wrong_password_or_user sign_in_checked
  sign_in_user draws now username password client_ip none =
      wrong_password_or_user now username client_ip
  sign_in_user draws now username password client_ip (some user) =
      sign_in_checked draws now username client_ip user
        (world.password_matches password user.password_hash)

  unfoldable pub sign_in : Draws → ℕ → String → List ℕ → String → Exec Accounts Result
  unfolding sign_in_user
  sign_in draws now username password client_ip = do
    let username = world.normal username
    check_limits username client_ip now
    let password =
        if ltb max_password_length (length password)
        then take (max_password_length + 1) password
        else password
    user ← attempt (get_user_by_username username)
    sign_in_user draws now username password client_ip user

  unfoldable pub sign_in_step : ℕ → String → Scope → Exec Accounts (Token × User)
  sign_in_step now raw scope = do
    token ← or_fail sign_in_expired (get_token_by_hash sign_in_kind (world.hash_token raw))
    if ltb token.expires_at now || not (has_scope scope token.scopes)
        then refuse sign_in_expired
        else (do user ← or_fail sign_in_expired (get_user token.user_id); pure (token, user))

  abbrev pub with_password : Draws → List ℕ → User → User
  with_password draws password user = record user {
    password_hash = world.hash_password draws.salt password;
    must_change_password = false;
    password_expires_at = none;
  }

  unfoldable pub set_password : Draws → ℕ → String → List ℕ → List ℕ → Exec Accounts Result
  unfolding check_new_password
  set_password draws now raw password repeat = do
    (token, user) ← sign_in_step now raw set_password_scope
    check_new_password world password repeat
    if is_match (world.password_matches password user.password_hash)
        then refuse password_reused
        else (do
          let user = with_password draws password user
          update_user user
          delete_token token.id
          next draws now user (without_scope set_password_scope token.scopes))

  unfoldable pub spend_code : Draws → ℕ → String → Token → User → Option ℕ → Exec Accounts Result
  spend_code draws now client_ip token user none = do
    failed_attempt user.username client_ip now
    refuse wrong_code
  spend_code draws now client_ip token user (some step) = do
    let user = record user { totp_last_step = step }
    update_user user
    delete_token token.id
    next draws now user []

  unfoldable pub verify_totp : Draws → ℕ → String → List ℕ → String → Exec Accounts Result
  unfolding spend_code
  verify_totp draws now raw code client_ip = do
    (token, user) ← sign_in_step now raw totp_scope
    if has_scope set_password_scope token.scopes then refuse sign_in_expired else (do
      check_limits user.username client_ip now
      spend_code draws now client_ip token user
          (match_totp world.hmac world.key_of user.totp_secret code now user.totp_last_step))
