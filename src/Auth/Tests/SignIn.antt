-- ===== src/Auth/Tests/SignIn.antt =====
-- A user with an authenticator signs in three times, once with a code that was used.
use Prim.Native.String.{String}
use text.Mathlib.Text.{◌==◌ as str_eq}
use solstein.Base.{
  ℕ, ◌*◌, ◌≡◌, ◌≢◌, refl, true, false, Option, none, some, List, [], ◌∷◌, ◌++◌, drop, length,
  replicate, bytes_equal, if◌then◌else◌,
}
use solstein.Auth.Limiter.{new_limiter, blocked, prune, recent, fail, reset}
use solstein.Auth.Exec.{◌>>=◌, or_fail, attempt}
use solstein.Auth.Totp.{match_totp, match_key, match_candidates, totp_code, modulus, without_spaces}
use solstein.Auth.Totp.Match.{IsMatch, match_totp-IsMatch}
use solstein.Auth.Accounts.{
  User, Accounts, create_token, find_user, update_user, get_token_by_hash, delete_tokens,
}
use solstein.Auth.Service.{
  World, Draws, sign_in, sign_in_user, sign_in_checked, wrong_password_or_user, next, issue,
  check_limits, check_limit, failed_attempt, reset_limit, sign_in_step, set_password,
  check_new_password, verify_totp, spend_code,
}
use solstein.Auth.Service.Calls.{Call, signing_in, verifying_totp, call, opened_by, spent}
use solstein.Auth.Service.Calls.Spent.{IsIncreasing, spent-IsIncreasing}

-- The code of a step is its number.
abbrev hmac : List ℕ → List ℕ → List ℕ
hmac key counter = drop 4 counter ++ 0 ∷ []

abbrev key_of : String → Option (List ℕ)
key_of secret = if str_eq secret "" then none else some (1 ∷ [])

abbrev world : World
world = record {
  hash_password = λ salt password. "";
  password_matches = λ password hash. some (bytes_equal password (7 ∷ []));
  hash_token = λ raw. raw;
  hmac = hmac;
  key_of = key_of;
  normal = λ username. username;
  is_username = λ username. true;
  rune_count = length;
}

abbrev ann : User
ann = record {
  id = 1;
  username = "ann";
  password_hash = "";
  must_change_password = false;
  password_expires_at = none;
  totp_secret = "secret";
  totp_pending = "";
  totp_enabled = true;
  totp_last_step = 2;
  last_sign_in_at = none;
}

abbrev accounts : Accounts
accounts = record { users = ann ∷ []; tokens = []; limiter = new_limiter }

abbrev draws : ℕ → String → Draws
draws id token = record {
  user_id = 0;
  token_id = id;
  token = token;
  salt = 0;
  one_time = [];
  secret = "";
}

-- The third step since 1970.
abbrev now : ℕ
now = 90 * 1000000000

abbrev code : ℕ → List ℕ
code digit = b'0' ∷ b'0' ∷ b'0' ∷ b' ' ∷ b'0' ∷ b'0' ∷ digit ∷ []

abbrev calls : List Call
calls =
    signing_in (draws 1 "first") now "ann" (7 ∷ []) "here"
    ∷ verifying_totp (draws 2 "one") now "first" (code b'3') "here"
    ∷ signing_in (draws 3 "second") now "ann" (7 ∷ []) "here"
    ∷ verifying_totp (draws 4 "two") now "second" (code b'3') "here"
    ∷ verifying_totp (draws 5 "three") now "second" (code b'4') "here"
    ∷ []

spent-IsIncreasing_example : IsIncreasing 2 (spent world 1 calls accounts)
spent-IsIncreasing_example =
    spent-IsIncreasing world 1 "ann" 2 calls accounts
      (record { users = (λ _. (refl, refl, refl), tt); tokens = tt })
      (tt, (tt, (tt, (tt, (tt, tt)))))

match_totp-IsMatch_example :
    IsMatch hmac
      (key_of "secret")
      (code b'4')
      now
      2
      (match_totp hmac key_of "secret" (code b'4') now 2)
match_totp-IsMatch_example = match_totp-IsMatch hmac key_of "secret" (code b'4') now 2

found : match_totp hmac key_of "secret" (code b'4') now 2 ≡ some 4
unfolding match_totp match_key match_candidates totp_code modulus without_spaces
found = refl

codes_spent : spent world 1 calls accounts ≡ 3 ∷ 4 ∷ []
unfolding spent call sign_in sign_in_user sign_in_checked wrong_password_or_user next issue
    create_token check_limits check_limit blocked prune recent failed_attempt fail reset_limit reset
    find_user update_user get_token_by_hash delete_tokens or_fail attempt sign_in_step verify_totp
    spend_code ◌>>=◌ match_totp match_key match_candidates totp_code modulus without_spaces
codes_spent = refl

-- A user who was given a one-time password.
abbrev bob : User
bob = record ann {
  must_change_password = true;
  password_expires_at = some (2 * now);
  totp_enabled = false;
}

abbrev begun : Accounts
begun =
    (sign_in world (draws 2 "second") now "ann" (7 ∷ []) "here"
      (sign_in world (draws 1 "first") now "ann" (7 ∷ []) "here"
        (record { users = bob ∷ []; tokens = []; limiter = new_limiter })).1).1

abbrev chosen : List ℕ
chosen = replicate 10 b'a'

abbrev chosen_later : List ℕ
chosen_later = replicate 10 b'b'

-- Two sign-ins that began with the one-time password: each chooses a password, and has a session.
chosen_twice :
    let first = set_password world (draws 3 "one") now "first" chosen chosen begun in
    let second =
      set_password world (draws 4 "two") now "second" chosen_later chosen_later first.1 in
    (opened_by first.0 ≢ none) × (opened_by second.0 ≢ none)
unfolding sign_in sign_in_user sign_in_checked wrong_password_or_user next issue create_token
    check_limits check_limit blocked prune recent failed_attempt fail reset_limit reset find_user
    update_user get_token_by_hash delete_tokens or_fail attempt sign_in_step set_password
    check_new_password ◌>>=◌
chosen_twice = (λ h. absurd (cc h), λ h. absurd (cc h))
