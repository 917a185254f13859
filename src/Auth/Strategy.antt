-- ===== src/Auth/Strategy.antt =====
-- Who may call: JwtStrategy.validate (src/auth/jwt.strategy.ts), AdminGuard
-- (src/common/guards/admin.guard.ts), `toPositiveInt` (src/common/helpers/id.helpers.ts, written
-- again in several classes), and the hourly purge of src/auth/otp-cleanup.task.ts.
use market_place.Base.{
  ℕ, ◌+◌, String, Bool, true, Option, ◌||◌, not, ◌==◌, find?, delete_where, is_some, ltb,
}
use market_place.Base.JsValue.{JsValue, to_positive_int}
use market_place.Store.{
  Action, http, unauthorized, forbidden, pure, throw_if, or_throw, query, gets, ◌>>=◌, ◌>>◌, User,
  Otp, Pending,
}
use market_place.Auth.Session.{account_id}

-- `sub` as the token carries it, a number or a text
pub record JwtPayload : Type 0 where
  pub sub : JsValue
  pub phone : String
  pub is_admin : Bool
  pub token_version : Option ℕ

pub record AuthUser : Type 0 where
  pub sub : ℕ
  pub phone : String
  pub is_admin : Bool
  pub token_version : ℕ

unfoldable pub validate : JwtPayload → Action AuthUser
validate payload = do
  version ← or_throw payload.token_version (http unauthorized "Invalid token")
  sub ← or_throw (to_positive_int payload.sub) (http unauthorized "Invalid token")
  found ← gets (λ w. find? (account_id sub) w.db.users)
  user ← or_throw found (http unauthorized "Token is stale")
  throw_if (not (user.token_version == version)) (http unauthorized "Token is stale")
  pure (record {
    sub = sub;
    phone = user.phone;
    is_admin = payload.is_admin;
    token_version = user.token_version;
  })

-- the request's user, with `isAdmin` set
unfoldable pub can_activate : Option AuthUser → Action AuthUser
can_activate request_user = do
  user ← or_throw request_user (http forbidden "Admin privileges required")
  throw_if (user.sub == 0) (http forbidden "Admin privileges required")
  found ← gets (λ w. find? (λ (u : User). u.id == user.sub) w.db.users)
  row ← or_throw found (http forbidden "Admin privileges required")
  throw_if (not row.is_admin) (http forbidden "Admin privileges required")
  pure (record user { is_admin = true })

abbrev pub seconds_in_day : ℕ
seconds_in_day = 86400

unfoldable pub purge_expired_otps : Action (Unit {0})
purge_expired_otps = do
  now ← gets (λ w. w.now)
  query (λ d. record d {
    otps =
        delete_where (λ (o : Otp). is_some o.used_at || ltb (o.expires_at + seconds_in_day) now)
          d.otps;
  })
  query (λ d. record d {
    pendings = delete_where (λ (p : Pending). ltb (p.expires_at + seconds_in_day) now) d.pendings;
  })
