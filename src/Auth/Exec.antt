-- ===== src/Auth/Exec.antt =====
-- How the calls of the sign-in service end (auth/service.go): a result or one of its errors. What was
-- written before an error stays written, so the state comes back beside it.
pub mod Triple
use solstein.Base.{ℕ, Option, none, some}

pub data Failure : Type 0 where
  wrong_credentials wrong_code wrong_password no_session sign_in_expired : Failure
  invalid_username password_rules passwords_differ password_reused no_pending_totp : Failure
  user_not_found user_exists token_not_found bad_hash : Failure
  too_many_attempts : ℕ → Failure

pub data Reply (A : Type 0) : Type 0 where
  done : A → Reply A
  failed : Failure → Reply A

abbrev pub Exec : Type 0 → Type 0 → Type 0
Exec S A = S → Reply A × S

module _ {S A : Type 0} where
  abbrev pub pure : A → Exec S A
  pure a s = (done a, s)

  abbrev pub refuse : Failure → Exec S A
  refuse e s = (failed e, s)

  abbrev pub gets : (S → A) → Exec S A
  gets f s = (done (f s), s)

module _ {S : Type 0} where
  abbrev pub modify : (S → S) → Exec S Unit
  modify f s = (done tt, f s)

module _ {S A B : Type 0} where
  abbrev pub continue : Reply A → (A → Exec S B) → Exec S B
  continue (done a) f s = f a s
  continue (failed e) f s = (failed e, s)

  infixl 10 ◌>>=◌ ◌>>◌
  unfoldable pub ◌>>=◌ : Exec S A → (A → Exec S B) → Exec S B
  ◌>>=◌ m f s = let (r, s') = m s in continue r f s'

  abbrev pub ◌>>◌ : Exec S A → Exec S B → Exec S B
  m >> n = m >>= λ _. n

module _ {S A : Type 0} where
  abbrev or_fail_with : Failure → Reply A × S → Reply A × S
  or_fail_with e (done a, s) = (done a, s)
  or_fail_with e (failed _, s) = (failed e, s)

  -- An error that the caller reports as its own.
  unfoldable pub or_fail : Failure → Exec S A → Exec S A
  or_fail e m s = or_fail_with e (m s)

  abbrev attempted : Reply A × S → Reply (Option A) × S
  attempted (done a, s) = (done (some a), s)
  attempted (failed _, s) = (done none, s)

  -- What an action that may fail gives.
  unfoldable pub attempt : Exec S A → Exec S (Option A)
  attempt m s = attempted (m s)
