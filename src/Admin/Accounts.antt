-- ===== src/Admin/Accounts.antt =====
-- `promoteAdmin`, `demoteAdmin`, `updateUserStatus` and `deleteUser` of src/admin/admin.service.ts.
pub mod Revocation
use Prim.Native.String.{◌++◌}
use market_place.Base.{
  ℕ, ◌+◌, String, Bool, true, false, Option, none, some, List, ◌==◌, ◌&&◌, not, find?, update_where,
  is_some, if◌then◌else◌,
}
use market_place.Base.Decimal.{digits}
use market_place.Store.{
  World, Db, Action, http, not_found, conflict, bad_request, pure, throw_if, or_throw, query, gets,
  redis_del, ◌>>=◌, ◌>>◌, User, UserStatus,
}
use market_place.Auth.Session.{account_id}
use market_place.Admin.Audit.{log_admin_action}

-- UPDATE users SET … WHERE id = $1 AND deleted_at IS NULL RETURNING …
unfoldable pub update_account : ℕ → (User → User) → Action (Option User)
update_account id f = do
  before ← gets (λ w. find? (account_id id) w.db.users)
  query (λ d. record d { users = update_where (account_id id) f d.users })
  pure (elim before as (λ _. Option User) [ none ↦ none | some u ↦ some (f u) ])

-- is_admin = b, token_version = token_version + 1
abbrev pub with_admin : Bool → User → User
with_admin b u = record u { is_admin = b; token_version = u.token_version + 1 }

abbrev pub with_deletion : ℕ → User → User
with_deletion now u = record u { deleted_at = some now; token_version = u.token_version + 1 }

module _ (admin_id user_id : ℕ) where
  unfoldable pub promote_admin : Action (Option User)
  promote_admin = do
    found ← gets (λ w. find? (account_id user_id) w.db.users)
    before ← or_throw found (http not_found "User not found")
    throw_if before.is_admin (http conflict "User is already an admin")
    updated ← update_account user_id (with_admin true)
    log_admin_action admin_id "promote_admin" "user" (some user_id)
    pure updated

  unfoldable pub demote_admin : Action (Option User)
  demote_admin = do
    throw_if (admin_id == user_id) (http bad_request "Admins cannot demote themselves")
    found ← gets (λ w. find? (account_id user_id) w.db.users)
    before ← or_throw found (http not_found "User not found")
    throw_if (not before.is_admin) (http conflict "User is not an admin")
    updated ← update_account user_id (with_admin false)
    log_admin_action admin_id "demote_admin" "user" (some user_id)
    pure updated

  unfoldable pub update_user_status : UserStatus → Action User
  update_user_status status = do
    found ← update_account user_id (λ u. record u { status = status })
    updated ← or_throw found (http not_found "User not found")
    log_admin_action admin_id "update_user_status" "user" (some user_id)
    redis_del ("user:status:" ++ digits user_id)
    pure updated

  unfoldable pub delete_user : Action (Unit {0})
  delete_user = do
    now ← gets (λ w. w.now)
    found ← update_account user_id (with_deletion now)
    deleted ← or_throw found (http not_found "User not found")
    log_admin_action admin_id "delete_user" "user" (some user_id)
    redis_del ("user:status:" ++ digits user_id)
