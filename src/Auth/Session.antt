-- ===== src/Auth/Session.antt =====
-- Sessions in src/auth/auth.service.ts: `login`, `refresh` and `logout`.
pub mod Rotation
pub mod Access
use market_place.Base.{
  ℕ, String, Bool, true, false, Option, none, some, str_eq, ◌&&◌, ◌||◌, not, ◌==◌, find?, is_some,
  if◌then◌else◌,
}
use market_place.Store.{
  Action, ok, http, unauthorized, pure, throw_if, or_throw, gets, ◌>>=◌, ◌>>◌, User, UserStatus,
  active, paused, banned,
}
use market_place.Auth.Env.{Env, Claims}
use market_place.Auth.StateStore.{consume_refresh_token_jti, revoke_refresh_token_jti}
use market_place.Auth.Tokens.{TokenPair, AppUser, map_to_app_user, generate_tokens}

abbrev pub is_active : UserStatus → Bool
is_active active = true
is_active _ = false

-- `phone = $1 AND deleted_at IS NULL`
abbrev pub account_of : String → User → Bool
account_of phone u = str_eq u.phone phone && not (is_some u.deleted_at)

-- `id = $1 AND deleted_at IS NULL`
abbrev pub account_id : ℕ → User → Bool
account_id id u = u.id == id && not (is_some u.deleted_at)

pub record LoginResponse : Type 0 where
  pub user : AppUser
  pub tokens : TokenPair

-- `user?.rows[0]` passes the tests of `refresh`
abbrev pub may_refresh : ℕ → User → Bool
may_refresh version u = is_active u.status && u.token_version == version

-- a `jti` that is absent or empty
abbrev pub present : Option String → Option String
present none = none
present (some s) = if str_eq s "" then none else some s

-- `!storedUserId || storedUserId !== sub` is false
abbrev pub is_stored_sub : Option ℕ → ℕ → Bool
is_stored_sub none sub = false
is_stored_sub (some id) sub = not (id == 0) && id == sub

module _ (env : Env) where
  unfoldable pub login : String → String → Action LoginResponse
  login phone password = do
    found ← gets (λ w. find? (account_of phone) w.db.users)
    user ← or_throw found (http unauthorized "Invalid credentials")
    throw_if (not (is_active user.status)) (http unauthorized "Invalid credentials")
    throw_if (not (env.bcrypt_compare password user.password_hash))
        (http unauthorized "Invalid credentials")
    tokens ← generate_tokens env user.id user.phone user.is_admin user.token_version
    pure (record { user = map_to_app_user user; tokens = tokens })

  -- the part of `refresh` behind the consumed token id
  unfoldable pub renew_session : ℕ → ℕ → Action TokenPair
  renew_session sub version = do
    found ← gets (λ w. find? (account_id sub) w.db.users)
    user ← or_throw found (http unauthorized "Invalid refresh token")
    throw_if (not (may_refresh version user)) (http unauthorized "Invalid refresh token")
    generate_tokens env user.id user.phone user.is_admin user.token_version

  unfoldable pub refresh : String → Action TokenPair
  refresh refresh_token = do
    now ← gets (λ w. w.now)
    payload ←
        or_throw (env.jwt_verify env.jwt_refresh_secret now refresh_token)
          (http unauthorized "Invalid refresh token")
    jti ← or_throw (present payload.jti) (http unauthorized "Invalid refresh token")
    stored ← consume_refresh_token_jti jti
    throw_if (not (is_stored_sub stored payload.sub)) (http unauthorized "Invalid refresh token")
    renew_session payload.sub payload.token_version

  -- an invalid token is treated as logged out
  unfoldable pub logout : String → Action (Unit {0})
  logout refresh_token = do
    now ← gets (λ w. w.now)
    elim (env.jwt_verify env.jwt_refresh_secret now refresh_token) as (λ _. Action (Unit {0})) [
      | none ↦ pure tt
      | some payload ↦ elim (present payload.jti) as (λ _. Action (Unit {0})) [
        | none ↦ pure tt
        | some jti ↦ revoke_refresh_token_jti jti
      ]
    ]
