-- ===== src/Auth/Accounts/Guard.antt =====
-- A user with an authenticator, as the statements on the database keep it (database/user.go,
-- database/token.go).
use Prim.Native.String.{String}
use text.Mathlib.Text.{◌==◌ as str_eq}
use solstein.Base.{
  ℕ, ◌≡◌, inl, inr, Bool, true, false, ◌&&◌, List, [], ◌∷◌, ◌++◌, ◌==◌, All, All-append, Bool-cases,
  Option-cases,
}
use solstein.Auth.Exec.{user_not_found, user_exists, token_not_found}
use solstein.Auth.Exec.Triple.{Ensures, Keeps}
use solstein.Auth.Accounts.{
  User, Token, Kind, totp_scope, sign_in_kind, is_kind, Accounts, first_row, rows_left, save_user,
  touched, find_user, update_user, create_user, delete_user_row, create_token, get_token_by_hash,
  touch_token, delete_tokens, has_scope,
}
use solstein.Auth.Accounts.Rows.{first_row-All, rows_left-All, if_found-Ends, if_absent-Ends}

-- The user's row, if there is one, has the name and an authenticator with `last` as its last step.
abbrev pub IsHeld : ℕ → String → ℕ → User → Type 0
IsHeld id name last user =
    (user.id == id) ≡ true
    → (user.totp_enabled ≡ true) × (user.totp_last_step ≡ last) × (str_eq user.username name ≡ true)

-- A sign-in of the user that goes on asks for a code.
abbrev pub Asks : ℕ → Token → Type 0
Asks id token =
    (token.user_id == id) ≡ true
    → is_kind token.kind sign_in_kind ≡ true
    → has_scope totp_scope token.scopes ≡ true

pub record Guarded (id : ℕ) (name : String) (last : ℕ) (accounts : Accounts) : Type 0 where
  pub users : All (IsHeld id name last) accounts.users
  pub tokens : All (Asks id) accounts.tokens

module _ (id : ℕ) (name : String) where
  save_user-IsHeld :
      (last last' : ℕ) (user : User) (xs : List User)
      → ((x : User) → (x.id == user.id) ≡ false → IsHeld id name last x → IsHeld id name last' x)
      → IsHeld id name last' user
      → All (IsHeld id name last) xs
      → All (IsHeld id name last') (save_user user xs)
  save_user-IsHeld last last' user [] moves held all = tt
  save_user-IsHeld last last' user (x ∷ xs) moves held (h, all) = (
    elim (Bool-cases (x.id == user.id)) [
      | inl same ↦ rw same held
      | inr other ↦ rw other (moves x other h)
    ],
    save_user-IsHeld last last' user xs moves held all,
  )

  touched-Asks :
      (token used_at expires_at : ℕ) (tokens : List Token)
      → All (Asks id) tokens
      → All (Asks id) (touched token used_at expires_at tokens)
  touched-Asks token used_at expires_at [] all = tt
  touched-Asks token used_at expires_at (t ∷ tokens) (h, all) = (
    elim (Bool-cases (t.id == token)) [ inl same ↦ rw same h | inr other ↦ rw other h ],
    touched-Asks token used_at expires_at tokens all,
  )

  -- A row that is saved moves the user on to a last step, where it is the user's or that stays.
  pub update_user-Guarded :
      (last last' : ℕ) (user : User)
      → ((x : User) → (x.id == user.id) ≡ false → IsHeld id name last x → IsHeld id name last' x)
      → IsHeld id name last' user
      → Ensures
          (Guarded id name last)
          (update_user user)
          (λ _ s. Guarded id name last' s × Unit)
          (Guarded id name last)
  unfolding update_user
  update_user-Guarded last last' user moves held = record {
    at = λ s is.
        let saved : Guarded id name last' (record s { users = save_user user s.users }) = record {
          users = save_user-IsHeld last last' user s.users moves held is.users;
          tokens = is.tokens;
        } in
        elim (Bool-cases (user.id == 0)) [
          | inl nil ↦ rw nil is
          | inr named ↦ rw named (
              if_found-Ends (Guarded id name last) (Guarded id name last')
                (first_row (λ (x : User). x.id == user.id) s.users) user_not_found
                (record s { users = save_user user s.users }) s is saved)
        ];
  }

  module _ (last : ℕ) where
    abbrev pub Guard : Accounts → Type 0
    Guard = Guarded id name last

    pub Keeps-find_user :
        (selects : User → Bool)
        → Keeps Guard (λ user. IsHeld id name last user × (selects user ≡ true)) (find_user selects)
    unfolding find_user
    Keeps-find_user selects = record {
      at = λ s is. elim (Option-cases (first_row selects s.users)) [
        | inl missing ↦ rw missing is
        | inr (user, found) ↦
            rw found (is, first_row-All (IsHeld id name last) selects s.users user is.users found)
      ];
    }

    pub Keeps-update_user :
        (user : User) → IsHeld id name last user → Keeps Guard (λ _. Unit) (update_user user)
    Keeps-update_user user held = update_user-Guarded last last user (λ x other h. h) held

    pub Keeps-create_user :
        (user : User) → IsHeld id name last user → Keeps Guard (λ _. Unit) (create_user user)
    unfolding create_user
    Keeps-create_user user held = record {
      at = λ s is.
          if_absent-Ends Guard Guard
            (first_row (λ (x : User). str_eq x.username user.username) s.users) user_exists
            (record s { users = s.users ++ user ∷ [] }) s is
            (record {
              users = All-append (IsHeld id name last) s.users (user ∷ []) is.users (held, tt);
              tokens = is.tokens;
            });
    }

    pub Keeps-delete_user_row : (user : ℕ) → Keeps Guard (λ _. Unit) (delete_user_row user)
    unfolding delete_user_row
    Keeps-delete_user_row user = record {
      at = λ s is.
          if_found-Ends Guard Guard (first_row (λ (x : User). x.id == user) s.users) user_not_found
            (record s {
              users = rows_left (λ (x : User). x.id == user) s.users;
              tokens = rows_left (λ (t : Token). t.user_id == user) s.tokens;
            })
            s is
            (record {
              users =
                  rows_left-All (IsHeld id name last) (λ (x : User). x.id == user) s.users is.users;
              tokens =
                  rows_left-All (Asks id) (λ (t : Token). t.user_id == user) s.tokens is.tokens;
            });
    }

    pub Keeps-create_token :
        (token : Token) → Asks id token → Keeps Guard (λ _. Unit) (create_token token)
    unfolding create_token
    Keeps-create_token token asks = record {
      at = λ s is. (
        record {
          users = is.users;
          tokens = All-append (Asks id) s.tokens (token ∷ []) is.tokens (asks, tt);
        },
        tt,
      );
    }

    pub Keeps-get_token_by_hash :
        (kind : Kind) (hash : String)
        → Keeps Guard
            (λ token. Asks id token × ((is_kind token.kind kind && str_eq token.hash hash) ≡ true))
            (get_token_by_hash kind hash)
    unfolding get_token_by_hash
    Keeps-get_token_by_hash kind hash = record {
      at = λ s is.
          let selects = λ (t : Token). is_kind t.kind kind && str_eq t.hash hash in
          elim (Option-cases (first_row selects s.tokens)) [
            | inl missing ↦ rw missing is
            | inr (token, found) ↦
                rw found (is, first_row-All (Asks id) selects s.tokens token is.tokens found)
          ];
    }

    pub Keeps-touch_token :
        (token used_at expires_at : ℕ)
        → Keeps Guard (λ _. Unit) (touch_token token used_at expires_at)
    unfolding touch_token
    Keeps-touch_token token used_at expires_at = record {
      at = λ s is.
          if_found-Ends Guard Guard (first_row (λ (t : Token). t.id == token) s.tokens)
            token_not_found (record s { tokens = touched token used_at expires_at s.tokens }) s is
            (record {
              users = is.users;
              tokens = touched-Asks token used_at expires_at s.tokens is.tokens;
            });
    }

    pub Keeps-delete_tokens :
        (deletes : Token → Bool) → Keeps Guard (λ _. Unit) (delete_tokens deletes)
    unfolding delete_tokens
    Keeps-delete_tokens deletes = record {
      at = λ s is. (
        record { users = is.users; tokens = rows_left-All (Asks id) deletes s.tokens is.tokens },
        tt,
      );
    }
