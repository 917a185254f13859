-- ===== src/Auth/Console.antt =====
-- ConsoleOtpSender, src/auth/otp-sender/console-otp.sender.ts, which keeps one-time passwords in
-- auth_otps. Its log line is not modelled.
pub mod Checks
pub mod Code
use market_place.Base.{
  ℕ, ◌+◌, ◌*◌, String, Bool, Option, none, some, List, [], ◌∷◌, str_eq, ◌&&◌, not, if◌then◌else◌,
  ltb, leb, is_some,
}
use Prim.Native.String.{◌++◌}
use market_place.Store.{
  Action, ok, err, http, bad_request, pure, throw_http, throw_if, or_throw, query, gets, fresh_id,
  draw, ◌>>=◌, ◌>>◌, OtpPurpose, Otp,
}
use market_place.Auth.Env.{Env}
use market_place.Auth.Provider.{StartPayload, StartResult, CheckPayload, CheckResult, OtpProvider}
use market_place.Auth.StateStore.{same_purpose, increment_otp_attempts, clear_otp_attempts}

-- OTP_RANGE_MIN, OTP_RANGE_MAX, OTP_MAX_ATTEMPTS and OTP_ATTEMPTS_TTL_SECONDS of constants.ts
abbrev pub otp_range_min : ℕ
otp_range_min = 100000

abbrev pub otp_range_max : ℕ
otp_range_max = 1000000

abbrev pub otp_max_attempts : ℕ
otp_max_attempts = 5

abbrev pub otp_attempts_ttl_seconds : ℕ
otp_attempts_ttl_seconds = 600

abbrev pub otp_of : String → OtpPurpose → Otp → Bool
otp_of phone purpose o = str_eq o.phone phone && same_purpose o.purpose purpose

abbrev later_otp : Otp → Option Otp → Otp
later_otp o none = o
later_otp o (some o') = if leb o'.created_at o.created_at then o else o'

-- `ORDER BY created_at DESC LIMIT 1`; of rows of one instant the latest insert, which SQL leaves open
unfoldable pub newest_otp : String → OtpPurpose → List Otp → Option Otp
newest_otp phone purpose [] = none
newest_otp phone purpose (o ∷ os) =
    let rest = newest_otp phone purpose os in
    if otp_of phone purpose o then some (later_otp o rest) else rest

module _ (env : Env) where
  unfoldable pub hash_otp : String → String → String
  hash_otp otp salt = env.hmac env.otp_signing_secret (otp ++ (":" ++ salt))

  -- the code that is sent, from the number of its draw
  abbrev pub sent_code : ℕ → String
  sent_code otp_draw =
      if env.otp_dev_mode then "000000" else env.random_int otp_range_min otp_range_max otp_draw

  unfoldable pub start_verification : StartPayload → Action StartResult
  start_verification payload = do
    otp_draw ← draw
    let otp = sent_code otp_draw
    salt_draw ← draw
    let salt = env.random_hex salt_draw
    id ← fresh_id
    now ← gets (λ w. w.now)
    query (λ d. record d {
      otps =
          record {
            id = id;
            user_id = payload.user_id;
            phone = payload.phone;
            code_hash = hash_otp otp salt;
            salt = salt;
            purpose = payload.purpose;
            expires_at = now + env.otp_ttl_minutes * 60;
            used_at = none;
            created_at = now;
          }
          ∷ d.otps;
    })
    pure (record { otp = if env.otp_dev_mode then some otp else none; transaction_req_id = none })

  -- the branch of a wrong code
  unfoldable pub reject_code : String → OtpPurpose → Action CheckResult
  reject_code phone purpose = do
    result ← increment_otp_attempts phone purpose otp_max_attempts otp_attempts_ttl_seconds
    throw_if result.locked (http bad_request "Too many attempts — OTP invalidated")
    throw_http bad_request "Invalid OTP"

  unfoldable pub check_verification : CheckPayload → Action CheckResult
  check_verification payload = do
    found ← gets (λ w. newest_otp payload.phone payload.purpose w.db.otps)
    row ← or_throw found (http bad_request "OTP not found")
    throw_if (is_some row.used_at) (http bad_request "OTP already used")
    now ← gets (λ w. w.now)
    throw_if (ltb row.expires_at now) (http bad_request "OTP expired")
    if not (str_eq (hash_otp payload.code row.salt) row.code_hash)
        then reject_code payload.phone payload.purpose
        else (clear_otp_attempts payload.phone payload.purpose
            >> pure (record { local_otp_id = some row.id }))

  abbrev pub provider : OtpProvider
  provider = record {
    start_verification = start_verification;
    check_verification = check_verification;
  }
