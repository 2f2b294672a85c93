-- ===== src/Auth/Service/Console.antt =====
-- Users, added and reset on the console (auth/service.go).
use Prim.Native.String.{String}
use solstein.Base.{ℕ, ◌+◌, true, false, none, some, List, if◌then◌else◌}
use solstein.Auth.Exec.{Exec, invalid_username, ◌>>=◌, ◌>>◌, pure, refuse}
use solstein.Auth.Accounts.{
  User, Accounts, get_user_by_username, update_user, create_user, delete_user_row,
  delete_user_tokens,
}
use solstein.Auth.Service.{World, Draws, one_time_lifetime, without_totp}

module _ (world : World) where
  unfoldable pub normalise_username : String → Exec Accounts String
  normalise_username username =
      let name = world.normal username in
      if world.is_username name then pure name else refuse invalid_username

  abbrev pub set_one_time_password : Draws → ℕ → User → User
  set_one_time_password draws now user = record user {
    password_hash = world.hash_password draws.salt draws.one_time;
    must_change_password = true;
    password_expires_at = some (now + one_time_lifetime);
  }

  abbrev pub new_user : Draws → ℕ → String → User
  new_user draws now username = set_one_time_password draws now (record {
    id = draws.user_id;
    username = username;
    password_hash = "";
    must_change_password = false;
    password_expires_at = none;
    totp_secret = "";
    totp_pending = "";
    totp_enabled = false;
    totp_last_step = 0;
    last_sign_in_at = none;
  })

  unfoldable pub user_named : String → Exec Accounts User
  unfolding normalise_username
  user_named username = do name ← normalise_username username; get_user_by_username name

  unfoldable pub add_user : Draws → ℕ → String → Exec Accounts (User × List ℕ)
  unfolding normalise_username
  add_user draws now username = do
    name ← normalise_username username
    let user = new_user draws now name
    create_user user
    pure (user, draws.one_time)

  unfoldable pub reset_password : Draws → ℕ → String → Exec Accounts (List ℕ × ℕ)
  reset_password draws now username = do
    user ← user_named username
    update_user (set_one_time_password draws now user)
    ended ← delete_user_tokens user.id
    pure (draws.one_time, ended)

  unfoldable pub reset_totp : String → Exec Accounts ℕ
  reset_totp username = do
    user ← user_named username
    update_user (without_totp user)
    delete_user_tokens user.id

  unfoldable pub delete_user : String → Exec Accounts Unit
  delete_user username = do user ← user_named username; delete_user_row user.id
