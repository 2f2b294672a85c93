-- ===== src/Auth/Service/Calls.antt =====
-- The calls that the sign-in service gets, one after another (auth/service.go).
pub mod Guarded
pub mod SignIn
pub mod Codes
pub mod Account
pub mod Console
pub mod Spent
use Prim.Native.String.{String}
use solstein.Base.{
  ℕ, Bool, true, false, ◌&&◌, Option, none, some, List, [], ◌∷◌, ◌++◌, ◌==◌, if◌then◌else◌,
}
use solstein.Auth.Exec.{Exec, Reply, done, failed}
use solstein.Auth.Accounts.{User, Scope, Accounts}
use solstein.Auth.Service.Console.{add_user, reset_password, reset_totp, delete_user}
use solstein.Auth.Service.{World, Draws, Result, sign_in, set_password, verify_totp}
use solstein.Auth.Service.Sessions.{
  session, sign_out, change_password, begin_totp, confirm_totp, disable_totp,
}

-- The steps of signing in, and all else; each with the time and what it draws.
pub data Call : Type 0 where
  signing_in : Draws → ℕ → String → List ℕ → String → Call
  setting_password : Draws → ℕ → String → List ℕ → List ℕ → Call
  verifying_totp : Draws → ℕ → String → List ℕ → String → Call
  using_session : ℕ → String → Call
  signing_out : String → Call
  changing_password : Draws → ℕ → ℕ → List ℕ → List ℕ → List ℕ → Call
  beginning_totp : Draws → ℕ → Call
  confirming_totp : ℕ → ℕ → List ℕ → Call
  disabling_totp : ℕ → List ℕ → Call
  adding_user : Draws → ℕ → String → Call
  resetting_password : Draws → ℕ → String → Call
  resetting_totp : String → Call
  deleting_user : String → Call

-- The user as a step of signing in leaves it, where that step opened a session.
abbrev pub opened_by : Reply Result → Option User
opened_by (failed e) = none
opened_by (done result) = elim result.next [ none ↦ some result.user | some step ↦ none ]

abbrev pub opens : Reply Result × Accounts → Option User × Accounts
opens r = (opened_by r.0, r.1)

abbrev pub other : {A : Type 0} → Reply A × Accounts → Option User × Accounts
other r = (none, r.1)

module _ (world : World) where
  -- The session that the call opened as the last step of signing in, if it did, and what is stored.
  unfoldable pub call : Call → Accounts → Option User × Accounts
  call (signing_in draws now username password client_ip) s =
      opens (sign_in world draws now username password client_ip s)
  call (setting_password draws now raw password repeat) s =
      opens (set_password world draws now raw password repeat s)
  call (verifying_totp draws now raw code client_ip) s =
      opens (verify_totp world draws now raw code client_ip s)
  call (using_session now raw) s = other (session world now raw s)
  call (signing_out raw) s = other (sign_out world raw s)
  call (changing_password draws now id current password repeat) s =
      other (change_password world draws now id current password repeat s)
  call (beginning_totp draws id) s = other (begin_totp world draws id s)
  call (confirming_totp now id code) s = other (confirm_totp world now id code s)
  call (disabling_totp id password) s = other (disable_totp world id password s)
  call (adding_user draws now username) s = other (add_user world draws now username s)
  call (resetting_password draws now username) s = other (reset_password world draws now username s)
  call (resetting_totp username) s = other (reset_totp world username s)
  call (deleting_user username) s = other (delete_user world username s)

  abbrev pub spent_by : ℕ → Option User → List ℕ
  spent_by id none = []
  spent_by id (some user) = if user.id == id then user.totp_last_step ∷ [] else []

  -- The last code's step, after each session that a user opened by signing in.
  unfoldable pub spent : ℕ → List Call → Accounts → List ℕ
  unfolding call
  spent id [] s = []
  spent id (c ∷ calls) s = let (user, s') = call c s in spent_by id user ++ spent id calls s'
