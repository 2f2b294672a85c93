-- ===== src/Auth/Service/Calls/Spent.antt =====
-- Each code is spent once (auth/service.go).
use Prim.Native.String.{String}
use text.Mathlib.Text.{◌==◌ as str_eq}
use solstein.Base.{ℕ, ◌≤◌, ◌<◌, ◌≡◌, refl, inl, inr, false, Option, List, [], ◌∷◌, ◌==◌, arith}
use solstein.Auth.Exec.{Reply, done, failed}
use solstein.Auth.Exec.Triple.{Ends}
use solstein.Auth.Accounts.{User, Accounts}
use solstein.Auth.Accounts.Guard.{Guarded}
use solstein.Auth.Service.{World, Result}
use solstein.Auth.Service.Calls.{
  Call, signing_in, setting_password, verifying_totp, using_session, signing_out, changing_password,
  beginning_totp, confirming_totp, disabling_totp, adding_user, resetting_password, resetting_totp,
  deleting_user, call, opens, other, spent_by, spent,
}
use solstein.Auth.Service.Calls.Guarded.{G}
use solstein.Auth.Service.Calls.SignIn.{Keeps-sign_in, Keeps-set_password}
use solstein.Auth.Service.Calls.Codes.{Moved, Later, Opens, quiet, verify_totp-Opens}
use solstein.Auth.Service.Calls.Account.{
  Keeps-session_use, Keeps-sign_out, Keeps-change_password, Keeps-begin_totp, Keeps-confirm_totp,
  Keeps-disable_totp,
}
use solstein.Auth.Service.Calls.Console.{
  Keeps-add_user, Keeps-reset_password, Keeps-reset_totp, Keeps-delete_user,
}

-- Each is later than the one before.
abbrev pub IsIncreasing : ℕ → List ℕ → Type 0
IsIncreasing last [] = Unit
IsIncreasing last (step ∷ steps) = (last < step) × IsIncreasing step steps

IsIncreasing-from :
    (last last' : ℕ) (steps : List ℕ)
    → last ≤ last'
    → IsIncreasing last' steps
    → IsIncreasing last steps
IsIncreasing-from last last' [] le is = tt
IsIncreasing-from last last' (step ∷ steps) le (new, is) = (omega (arith, new), is)

module _ (world : World) (id : ℕ) (name : String) where
  -- The call does not set up or take away the user's authenticator, nor give its identifier again.
  abbrev pub Leaves : Call → Type 0
  Leaves (signing_in draws now username password client_ip) = Unit
  Leaves (setting_password draws now raw password repeat) = Unit
  Leaves (verifying_totp draws now raw code client_ip) = Unit
  Leaves (using_session now raw) = Unit
  Leaves (signing_out raw) = Unit
  Leaves (changing_password draws now user_id current password repeat) = Unit
  Leaves (beginning_totp draws user_id) = Unit
  Leaves (confirming_totp now user_id code) = (user_id == id) ≡ false
  Leaves (disabling_totp user_id password) = (user_id == id) ≡ false
  Leaves (adding_user draws now username) = (draws.user_id == id) ≡ false
  Leaves (resetting_password draws now username) = Unit
  Leaves (resetting_totp username) = str_eq (world.normal username) name ≡ false
  Leaves (deleting_user username) = Unit

  abbrev pub AllLeave : List Call → Type 0
  AllLeave [] = Unit
  AllLeave (c ∷ calls) = Leaves c × AllLeave calls

  module _ (last : ℕ) where
    abbrev After : Option User × Accounts → Type 0
    After (user, s) = Moved world id name last (spent_by world id user) s

    opens-After :
        (r : Reply Result × Accounts)
        → Ends (Opens world id name last) (Later id name last) r
        → After (opens r)
    opens-After (done result, s) h = h
    opens-After (failed e, s) (last', le, g) = (last', le, g, inl refl)

    other-After :
        {A : Type 0} (r : Reply A × Accounts)
        → Ends (λ _ s. G world id name last s × Unit) (G world id name last) r
        → After (other r)
    other-After (done a, s) (g, _) = (last, omega arith, g, inl refl)
    other-After (failed e, s) g = (last, omega arith, g, inl refl)

    call-After :
        (c : Call) (s : Accounts) → Leaves c → Guarded id name last s → After (call world c s)
    unfolding call
    call-After (signing_in draws now username password client_ip) s leaves g = opens-After _ (
        (quiet world id name last
            (Keeps-sign_in world id name last draws now username password client_ip)).at
          s g)
    call-After (setting_password draws now raw password repeat) s leaves g = opens-After _ (
        (quiet world id name last
            (Keeps-set_password world id name last draws now raw password repeat)).at
          s g)
    call-After (verifying_totp draws now raw code client_ip) s leaves g =
        opens-After _ ((verify_totp-Opens world id name last draws now raw code client_ip).at s g)
    call-After (using_session now raw) s leaves g =
        other-After _ ((Keeps-session_use world id name last now raw).at s g)
    call-After (signing_out raw) s leaves g =
        other-After _ ((Keeps-sign_out world id name last raw).at s g)
    call-After (changing_password draws now user_id current password repeat) s leaves g =
        other-After _ (
          (Keeps-change_password world id name last draws now user_id current password repeat).at s
            g)
    call-After (beginning_totp draws user_id) s leaves g =
        other-After _ ((Keeps-begin_totp world id name last draws user_id).at s g)
    call-After (confirming_totp now user_id code) s leaves g =
        other-After _ ((Keeps-confirm_totp world id name last now user_id code leaves).at s g)
    call-After (disabling_totp user_id password) s leaves g =
        other-After _ ((Keeps-disable_totp world id name last user_id password leaves).at s g)
    call-After (adding_user draws now username) s leaves g =
        other-After _ ((Keeps-add_user world id name last draws now username leaves).at s g)
    call-After (resetting_password draws now username) s leaves g =
        other-After _ ((Keeps-reset_password world id name last draws now username).at s g)
    call-After (resetting_totp username) s leaves g =
        other-After _ ((Keeps-reset_totp world id name last username leaves).at s g)
    call-After (deleting_user username) s leaves g =
        other-After _ ((Keeps-delete_user world id name last username).at s g)

  -- From accounts where a user has an authenticator with a last step, and a sign-in of theirs that goes
  -- on asks for its code: in any calls that do not set up or take away that authenticator, the last step
  -- that is stored with each session that the user opens by signing in is later than the one before.
  pub spent-IsIncreasing :
      (last : ℕ) (calls : List Call) (s : Accounts)
      → Guarded id name last s
      → AllLeave calls
      → IsIncreasing last (spent world id calls s)
  unfolding spent
  spent-IsIncreasing last [] s g leaves = tt
  spent-IsIncreasing last (c ∷ calls) s g (leaves, more) =
      let (last', le, g', opened) = call-After last c s leaves g in
      let rest = spent-IsIncreasing last' calls (call world c s).1 g' more in
      elim opened [
        | inl none_opened ↦
            rw none_opened
              (IsIncreasing-from last last' (spent world id calls (call world c s).1) le rest)
        | inr (one, new) ↦ rw one (new, rest)
      ]
