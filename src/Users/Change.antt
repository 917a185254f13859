-- ===== src/Users/Change.antt =====
-- What a change of the password means for the next login.
use market_place.Base.{
  ℕ, ◌+◌, ◌≡◌, refl, String, true, false, some, find?, find?-sound, find?-update_where_if,
  update_where,
}
use market_place.Store.{World, ok, err, http, bad_request, User, active}
use market_place.Auth.Env.{Env, CryptoLaws}
use market_place.Auth.Session.{account_id, account_of, login}
use market_place.Auth.Session.Access.{Succeeds, login_iff}
use market_place.Users.{change_password}

-- The only active account of a phone changes its password. With the right old password the call
-- succeeds and `login` with the phone and the new password gives tokens; with a wrong one the call is
-- refused with "Invalid old password" and nothing has changed.
pub change_password-login :
    (env : Env) (id : ℕ) (old new : String) (w : World) (u : User)
    → CryptoLaws env
    → find? (account_id id) w.db.users ≡ some u
    → find? (account_of u.phone) w.db.users ≡ some u
    → u.status ≡ active
    → (env.bcrypt_compare old u.password_hash ≡ true
        → ((change_password env id old new w).0 ≡ ok tt)
          × Succeeds (login env u.phone new (change_password env id old new w).1).0)
      × (env.bcrypt_compare old u.password_hash ≡ false
          → change_password env id old new w ≡ (err (http bad_request "Invalid old password"), w))
unfolding change_password
change_password-login env id old new w u laws found phone act =
    let changed : User → User = λ x. record x { password_hash = env.bcrypt_hash new w.draws } in
    let mine = find?-sound (account_id id) w.db.users found in
    let read =
      find?-update_where_if (account_id id) (account_of u.phone) changed (λ x. refl) w.db.users
        phone in
    let after : World = record w {
      draws = w.draws + 1;
      db = record w.db { users = update_where (account_id id) changed w.db.users };
    } in
    (
      λ right.
          rw (found, right)
            (
              refl,
              (login_iff env u.phone new after).1
                  (rw (read, mine) (act, laws.compare-hash new w.draws)),
            ),
      λ wrong. rw (found, wrong) refl,
    )
