-- ===== src/Auth/StateStore.antt =====
-- src/auth/auth-state.store.ts: OTP attempt counters, OTP transaction ids and refresh-token ids, in
-- PostgreSQL with Redis beside it. The warnings that `tryRedisSet` logs are not modelled.
pub mod Frame
use market_place.Base.{
  ℕ, ◌+◌, String, Bool, true, false, Option, none, some, List, ◌∷◌, str_eq, ◌&&◌, find?, any,
  delete_where, update_where, if◌then◌else◌, ltb, leb, not, is_some, ◌==◌,
}
use Prim.Native.String.{◌++◌}
use market_place.Base.Decimal.{digits, parse_int}
use market_place.Base.Text.{is_empty}
use market_place.Store.{
  World, Db, Action, ok, err, pg, foreign_key_violation, pure, throw_if, query, gets, try_catch,
  ◌>>=◌, ◌>>◌, redis_get, redis_set, redis_del, OtpPurpose, registration, password_reset,
  OtpAttempts, RefreshToken, User,
}

abbrev pub purpose_text : OtpPurpose → String
purpose_text registration = "registration"
purpose_text password_reset = "password_reset"

abbrev pub same_purpose : OtpPurpose → OtpPurpose → Bool
same_purpose registration registration = true
same_purpose password_reset password_reset = true
same_purpose _ _ = false

unfoldable pub otp_attempts_key : String → OtpPurpose → String
otp_attempts_key phone purpose = ("otp_attempts:" ++ phone) ++ (":" ++ purpose_text purpose)

unfoldable pub otp_transaction_key : String → OtpPurpose → String
otp_transaction_key phone purpose = ("otp:tx:" ++ purpose_text purpose) ++ (":" ++ phone)

unfoldable pub refresh_jti_key : String → String
refresh_jti_key jti = "refresh_jti:" ++ jti

-- a failure of Redis is logged and swallowed
unfoldable pub try_redis_set : Action (Unit {0}) → Action (Unit {0})
try_redis_set op w = if not w.redis.enabled then (ok tt, w) else try_catch op (λ _. pure tt) w

pub record IncrementOtpResult : Type 0 where
  pub attempts : ℕ
  pub locked : Bool

abbrev pub attempts_of : String → OtpPurpose → OtpAttempts → Bool
attempts_of phone purpose a = str_eq a.phone phone && same_purpose a.purpose purpose

-- the Redis half of `incrementOtpAttempts`
unfoldable pub bump_cached_attempts : String → ℕ → Action (Unit {0})
bump_cached_attempts key ttl = do
  raw ← redis_get key
  let attempts = elim raw as (λ _. String) [
    | none ↦ "1"
    | some s ↦
        if is_empty s
        then "1"
        else elim (parse_int s) as (λ _. String) [ none ↦ "NaN" | some n ↦ digits (n + 1) ]
  ]
  redis_set key attempts ttl

-- the row after INSERT … ON CONFLICT DO UPDATE
unfoldable pub bumped : ℕ → ℕ → OtpAttempts → OtpAttempts
bumped now ttl a =
    if leb a.expires_at now
    then record a { attempts = 1; expires_at = now + ttl }
    else record a { attempts = a.attempts + 1 }

unfoldable pub upsert_attempts : String → OtpPurpose → ℕ → ℕ → List OtpAttempts → List OtpAttempts
upsert_attempts phone purpose now ttl rows =
    if any (attempts_of phone purpose) rows
    then update_where (attempts_of phone purpose) (bumped now ttl) rows
    else record { phone = phone; purpose = purpose; attempts = 1; expires_at = now + ttl } ∷ rows

-- DELETE FROM auth_otp_attempts
unfoldable pub clear_otp_attempts : String → OtpPurpose → Action (Unit {0})
clear_otp_attempts phone purpose = do
  try_redis_set (redis_del (otp_attempts_key phone purpose))
  query (λ d. record d { otp_attempts = delete_where (attempts_of phone purpose) d.otp_attempts })

-- `result.rows[0].attempts`
unfoldable pub returned_attempts : String → OtpPurpose → List OtpAttempts → ℕ
returned_attempts phone purpose rows = elim (find? (attempts_of phone purpose) rows) [
  | none ↦ 0
  | some a ↦ a.attempts
]

unfoldable pub increment_otp_attempts : String → OtpPurpose → ℕ → ℕ → Action IncrementOtpResult
increment_otp_attempts phone purpose max_attempts ttl = do
  try_redis_set (bump_cached_attempts (otp_attempts_key phone purpose) ttl)
  now ← gets (λ w. w.now)
  query (λ d. record d { otp_attempts = upsert_attempts phone purpose now ttl d.otp_attempts })
  attempts ← gets (λ w. returned_attempts phone purpose w.db.otp_attempts)
  if leb max_attempts attempts
      then (clear_otp_attempts phone purpose
          >> pure (record { attempts = attempts; locked = true }))
      else pure (record { attempts = attempts; locked = false })

unfoldable pub save_otp_transaction_req_id : String → OtpPurpose → String → ℕ → Action (Unit {0})
save_otp_transaction_req_id phone purpose transaction_req_id ttl =
    try_redis_set (redis_set (otp_transaction_key phone purpose) transaction_req_id ttl)

unfoldable pub get_otp_transaction_req_id : String → OtpPurpose → Action (Option String)
get_otp_transaction_req_id phone purpose =
    try_catch (redis_get (otp_transaction_key phone purpose)) (λ _. pure none)

unfoldable pub clear_otp_transaction_req_id : String → OtpPurpose → Action (Unit {0})
clear_otp_transaction_req_id phone purpose =
    try_redis_set (redis_del (otp_transaction_key phone purpose))

abbrev pub token_of : String → RefreshToken → Bool
token_of jti t = str_eq t.jti jti

-- INSERT … ON CONFLICT (jti) DO UPDATE; the foreign key wants the user's row
unfoldable pub upsert_refresh_token : String → ℕ → ℕ → List RefreshToken → List RefreshToken
upsert_refresh_token jti user_id expires rows =
    if any (token_of jti) rows
    then update_where (token_of jti)
        (λ t. record t { user_id = user_id; expires_at = expires; revoked_at = none }) rows
    else record { jti = jti; user_id = user_id; expires_at = expires; revoked_at = none } ∷ rows

unfoldable pub save_refresh_token_jti : String → ℕ → ℕ → Action (Unit {0})
save_refresh_token_jti jti user_id ttl = do
  try_redis_set (redis_set (refresh_jti_key jti) (digits user_id) ttl)
  known ← gets (λ w. any (λ (u : User). u.id == user_id) w.db.users)
  throw_if (not known) (pg foreign_key_violation)
  now ← gets (λ w. w.now)
  query (λ d. record d {
    refresh_tokens = upsert_refresh_token jti user_id (now + ttl) d.refresh_tokens;
  })

-- `jti = $1 AND revoked_at IS NULL AND expires_at > NOW()`
abbrev pub live_token_of : String → ℕ → RefreshToken → Bool
live_token_of jti now t = token_of jti t && not (is_some t.revoked_at) && ltb now t.expires_at

-- `rowCount ? rows[0].user_id : null`
abbrev pub owner_of : Option RefreshToken → Option ℕ
owner_of none = none
owner_of (some t) = some t.user_id

unfoldable pub consume_refresh_token_jti : String → Action (Option ℕ)
consume_refresh_token_jti jti = do
  try_redis_set (redis_del (refresh_jti_key jti))
  now ← gets (λ w. w.now)
  found ← gets (λ w. find? (live_token_of jti now) w.db.refresh_tokens)
  query (λ d. record d { refresh_tokens = delete_where (live_token_of jti now) d.refresh_tokens })
  pure (owner_of found)

unfoldable pub revoke_refresh_token_jti : String → Action (Unit {0})
revoke_refresh_token_jti jti = do
  try_redis_set (redis_del (refresh_jti_key jti))
  now ← gets (λ w. w.now)
  query (λ d. record d {
    refresh_tokens =
        update_where (token_of jti) (λ t. record t { revoked_at = some now }) d.refresh_tokens;
  })

-- `dto.transactionReqID ?? await getOtpTransactionReqId(phone, purpose) ?? undefined`
unfoldable pub saved_transaction : Option String → String → OtpPurpose → Action (Option String)
saved_transaction none phone purpose = get_otp_transaction_req_id phone purpose
saved_transaction (some id) phone purpose = pure (some id)
