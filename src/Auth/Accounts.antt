-- ===== src/Auth/Accounts.antt =====
-- The users and their tokens (models/user.go, models/token.go), stored (database/user.go,
-- database/token.go). A table is the list of its rows, read in order; an identifier is a number, 0 for
-- uuid.Nil. Each call is one statement, or one transaction, which the database does not fail.
pub mod Rows
pub mod Guard
use Prim.Native.String.{String}
use text.Mathlib.Text.{◌==◌ as str_eq}
use solstein.Base.{
  ℕ, Bool, true, false, not, ◌&&◌, ◌||◌, Option, none, some, List, [], ◌∷◌, ◌++◌, ◌==◌, ltb,
  if◌then◌else◌, length,
}
use solstein.Auth.Limiter.{Limiter}
use solstein.Auth.Exec.{
  Exec, Failure, Reply, done, failed, user_not_found, user_exists, token_not_found, ◌>>=◌, ◌>>◌,
  pure, refuse, gets, modify,
}

pub record User : Type 0 where
  pub id : ℕ
  pub username : String
  pub password_hash : String
  pub must_change_password : Bool
  pub password_expires_at : Option ℕ
  pub totp_secret : String
  pub totp_pending : String
  pub totp_enabled : Bool
  pub totp_last_step : ℕ
  pub last_sign_in_at : Option ℕ

pub data Kind : Type 0 where
  session_kind sign_in_kind : Kind

pub data Scope : Type 0 where
  ui_scope set_password_scope totp_scope : Scope

pub record Token : Type 0 where
  pub id : ℕ
  pub kind : Kind
  pub hash : String
  pub user_id : ℕ
  pub scopes : List Scope
  pub created_at : ℕ
  pub expires_at : ℕ
  pub last_used_at : ℕ

-- The database's two tables, and the failed attempts that the service counts.
pub record Accounts : Type 0 where
  pub users : List User
  pub tokens : List Token
  pub limiter : Limiter

abbrev pub is_kind : Kind → Kind → Bool
is_kind session_kind session_kind = true
is_kind session_kind sign_in_kind = false
is_kind sign_in_kind session_kind = false
is_kind sign_in_kind sign_in_kind = true

abbrev pub is_scope : Scope → Scope → Bool
is_scope ui_scope ui_scope = true
is_scope ui_scope set_password_scope = false
is_scope ui_scope totp_scope = false
is_scope set_password_scope set_password_scope = true
is_scope set_password_scope ui_scope = false
is_scope set_password_scope totp_scope = false
is_scope totp_scope totp_scope = true
is_scope totp_scope ui_scope = false
is_scope totp_scope set_password_scope = false

abbrev pub has_scope : Scope → List Scope → Bool
has_scope scope [] = false
has_scope scope (s ∷ scopes) = is_scope s scope || has_scope scope scopes

abbrev pub without_scope : Scope → List Scope → List Scope
without_scope scope [] = []
without_scope scope (s ∷ scopes) =
    let rest = without_scope scope scopes in if is_scope s scope then rest else s ∷ rest

module _ {A : Type 0} where
  -- The first row that a condition selects.
  abbrev pub first_row : (A → Bool) → List A → Option A
  first_row selects [] = none
  first_row selects (x ∷ xs) = let rest = first_row selects xs in if selects x then some x else rest

  -- The rows that are not deleted.
  abbrev pub rows_left : (A → Bool) → List A → List A
  rows_left deletes [] = []
  rows_left deletes (x ∷ xs) =
      let rest = rows_left deletes xs in if deletes x then rest else x ∷ rest

abbrev found_user : Option User → Exec Accounts User
found_user none = refuse user_not_found
found_user (some user) = pure user

unfoldable pub find_user : (User → Bool) → Exec Accounts User
find_user selects accounts = found_user (first_row selects accounts.users) accounts

abbrev pub get_user : ℕ → Exec Accounts User
get_user id = find_user (λ user. user.id == id)

abbrev pub get_user_by_username : String → Exec Accounts User
get_user_by_username username = find_user (λ user. str_eq user.username username)

abbrev pub save_user : User → List User → List User
save_user user [] = []
save_user user (x ∷ xs) = (if x.id == user.id then user else x) ∷ save_user user xs

-- The rows affected: none is an error, and nothing is written.
abbrev pub if_found : {A : Type 0} → Option A → Failure → Accounts → Exec Accounts Unit
if_found none e changed accounts = refuse e accounts
if_found (some _) e changed accounts = (done tt, changed)

abbrev pub if_absent : {A : Type 0} → Option A → Failure → Accounts → Exec Accounts Unit
if_absent none e changed accounts = (done tt, changed)
if_absent (some _) e changed accounts = refuse e accounts

unfoldable pub update_user : User → Exec Accounts Unit
update_user user accounts =
    if user.id == 0
    then refuse user_not_found accounts
    else if_found (first_row (λ x. x.id == user.id) accounts.users) user_not_found
        (record accounts { users = save_user user accounts.users }) accounts

unfoldable pub create_user : User → Exec Accounts Unit
create_user user accounts =
    if_absent (first_row (λ x. str_eq x.username user.username) accounts.users) user_exists
      (record accounts { users = accounts.users ++ user ∷ [] }) accounts

-- The foreign key deletes a user's tokens with it.
unfoldable pub delete_user_row : ℕ → Exec Accounts Unit
delete_user_row id accounts =
    if_found (first_row (λ x. x.id == id) accounts.users) user_not_found
      (record accounts {
        users = rows_left (λ x. x.id == id) accounts.users;
        tokens = rows_left (λ t. t.user_id == id) accounts.tokens;
      })
      accounts

unfoldable pub create_token : Token → Exec Accounts Unit
create_token token accounts = (done tt, record accounts { tokens = accounts.tokens ++ token ∷ [] })

abbrev found_token : Option Token → Exec Accounts Token
found_token none = refuse token_not_found
found_token (some token) = pure token

unfoldable pub get_token_by_hash : Kind → String → Exec Accounts Token
get_token_by_hash kind hash accounts =
    found_token (first_row (λ t. is_kind t.kind kind && str_eq t.hash hash) accounts.tokens)
      accounts

abbrev touched : ℕ → ℕ → ℕ → List Token → List Token
touched id used_at expires_at [] = []
touched id used_at expires_at (t ∷ tokens) =
    (if t.id == id then record t { last_used_at = used_at; expires_at = expires_at } else t)
    ∷ touched id used_at expires_at tokens

unfoldable pub touch_token : ℕ → ℕ → ℕ → Exec Accounts Unit
touch_token id used_at expires_at accounts =
    if_found (first_row (λ (t : Token). t.id == id) accounts.tokens) token_not_found
      (record accounts { tokens = touched id used_at expires_at accounts.tokens }) accounts

-- Deletes the tokens that a condition selects, and counts them.
unfoldable pub delete_tokens : (Token → Bool) → Exec Accounts ℕ
delete_tokens deletes accounts =
    let left = rows_left deletes accounts.tokens in
    let kept = rows_left (λ t. not (deletes t)) accounts.tokens in
    (done (length kept), record accounts { tokens = left })

abbrev pub delete_token : ℕ → Exec Accounts ℕ
delete_token id = delete_tokens (λ t. t.id == id)

abbrev pub delete_user_tokens : ℕ → Exec Accounts ℕ
delete_user_tokens id = delete_tokens (λ t. t.user_id == id)

abbrev pub delete_expired_tokens : ℕ → Exec Accounts ℕ
delete_expired_tokens now = delete_tokens (λ t. ltb t.expires_at now)
