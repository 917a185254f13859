-- ===== src/Users.antt =====
-- The account of src/users/users.service.ts: `changePassword` and `deleteMe`, with the profile below.
pub mod Change
pub mod Profile
use market_place.Base.{
  ℕ, ◌+◌, String, Option, none, some, not, find?, update_where, if◌then◌else◌, is_some,
}
use market_place.Store.{
  Action, http, not_found, bad_request, throw_if, or_throw, query, gets, draw, ◌>>=◌, ◌>>◌, User,
}
use market_place.Auth.Env.{Env}
use market_place.Auth.Session.{account_id}

unfoldable pub change_password : Env → ℕ → String → String → Action (Unit {0})
change_password env user_id old_password new_password = do
  found ← gets (λ w. find? (account_id user_id) w.db.users)
  user ← or_throw found (http not_found "User not found")
  throw_if (not (env.bcrypt_compare old_password user.password_hash))
      (http bad_request "Invalid old password")
  salt ← draw
  query (λ d. record d {
    users =
        update_where (account_id user_id)
          (λ u. record u { password_hash = env.bcrypt_hash new_password salt }) d.users;
  })

unfoldable pub delete_me : ℕ → Action (Unit {0})
delete_me user_id = do
  now ← gets (λ w. w.now)
  found ← gets (λ w. find? (account_id user_id) w.db.users)
  query (λ d. record d {
    users =
        update_where (account_id user_id)
          (λ u. record u { deleted_at = some now; token_version = u.token_version + 1 }) d.users;
  })
  throw_if (not (is_some found)) (http not_found "User not found")
