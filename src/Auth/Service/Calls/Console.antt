-- ===== src/Auth/Service/Calls/Console.antt =====
-- The console: no call signs anyone in (auth/service.go).
use Prim.Native.String.{String}
use text.Mathlib.TextEquality.{eq_iff}
use text.Mathlib.Text.{◌==◌ as str_eq}
use solstein.Base.{ℕ, ◌≡◌, refl, sym, subst, true, false, ◌==◌}
use solstein.Auth.Exec.Triple.{Keeps, Keeps-pure, Keeps-refuse, Keeps-if, Keeps-bind}
use solstein.Auth.Accounts.{User, get_user_by_username}
use solstein.Auth.Accounts.Guard.{
  Keeps-find_user, Keeps-update_user, Keeps-create_user, Keeps-delete_user_row, Keeps-delete_tokens,
}
use solstein.Auth.Service.Console.{
  user_named, normalise_username, add_user, reset_password, reset_totp, delete_user,
  set_one_time_password, new_user,
}
use solstein.Auth.Service.{World, Draws}
use solstein.Auth.Service.{without_totp}
use solstein.Auth.Service.Calls.Guarded.{G}
use solstein.Auth.Service.Calls.Account.{K, Held}

module _ (world : World) (id : ℕ) (name : String) (last : ℕ) where
  Keeps-user_named :
      (username : String)
      → Keeps
          (G world id name last)
          (λ user.
            Held world id name last user × (str_eq user.username (world.normal username) ≡ true))
          (user_named world username)
  unfolding user_named normalise_username
  Keeps-user_named username =
      let name' = world.normal username in
      Keeps-bind (λ given. given ≡ name')
        (Keeps-if (world.is_username name') (λ _. Keeps-pure refl) (λ _. Keeps-refuse))
        λ given is.
          subst
            (λ n.
              Keeps (G world id name last)
                (λ user. Held world id name last user × (str_eq user.username name' ≡ true))
                (get_user_by_username n))
            (sym is) (Keeps-find_user id name last (λ user. str_eq user.username name'))

  pub Keeps-add_user :
      (draws : Draws) (now : ℕ) (username : String)
      → (draws.user_id == id) ≡ false
      → K world id name last (add_user world draws now username)
  unfolding add_user normalise_username
  Keeps-add_user draws now username fresh =
      let name' = world.normal username in
      Keeps-bind (λ _. Unit)
        (Keeps-if (world.is_username name') (λ _. Keeps-pure tt) (λ _. Keeps-refuse))
        λ given _.
          Keeps-bind (λ _. Unit)
            (Keeps-create_user id name last (new_user world draws now given)
              (λ same. absurd (cc (fresh, same))))
            (λ _ _. Keeps-pure tt)

  pub Keeps-reset_password :
      (draws : Draws) (now : ℕ) (username : String)
      → K world id name last (reset_password world draws now username)
  unfolding reset_password
  Keeps-reset_password draws now username =
      Keeps-bind
        (λ user.
          Held world id name last user × (str_eq user.username (world.normal username) ≡ true))
        (Keeps-user_named username)
        λ user (held, _).
          Keeps-bind (λ _. Unit)
            (Keeps-update_user id name last (set_one_time_password world draws now user) held)
            λ _ _.
              Keeps-bind (λ _. Unit) (Keeps-delete_tokens id name last (λ t. t.user_id == user.id))
                (λ _ _. Keeps-pure tt)

  -- A user by another name is another user.
  other_name :
      (user : User) (n : String)
      → Held world id name last user
      → str_eq user.username n ≡ true
      → str_eq n name ≡ false
      → (user.id == id) ≡ true
      → ⊥
  other_name user n held named other mine =
      let same = (eq_iff user.username n).0 named in
      cc (subst (λ m. str_eq m name ≡ true) same (held mine).2, other)

  pub Keeps-reset_totp :
      (username : String)
      → str_eq (world.normal username) name ≡ false
      → K world id name last (reset_totp world username)
  unfolding reset_totp
  Keeps-reset_totp username other =
      Keeps-bind
        (λ user.
          Held world id name last user × (str_eq user.username (world.normal username) ≡ true))
        (Keeps-user_named username)
        λ user (held, named).
          Keeps-bind (λ _. Unit)
            (Keeps-update_user id name last (without_totp user)
              (λ mine. absurd (other_name user (world.normal username) held named other mine)))
            (λ _ _. Keeps-delete_tokens id name last (λ t. t.user_id == user.id))

  pub Keeps-delete_user : (username : String) → K world id name last (delete_user world username)
  unfolding delete_user
  Keeps-delete_user username =
      Keeps-bind
        (λ user.
          Held world id name last user × (str_eq user.username (world.normal username) ≡ true))
        (Keeps-user_named username) (λ user _. Keeps-delete_user_row id name last user.id)
