-- ===== src/Auth/Password.antt =====
-- Password reset and the Akedly flow in src/auth/auth.service.ts: `requestPasswordResetOtp`,
-- `resetPassword` and `sendAkedlyOtp`. `getAkedlyChallenge` only relays a remote answer.
pub mod Reset
use market_place.Base.{
  ℕ, ◌*◌, String, Bool, true, false, Option, none, some, str_eq, not, ◌==◌, find?, any,
  update_where, is_some, if◌then◌else◌,
}
use market_place.Store.{
  Action, http, bad_request, unauthorized, not_found, pure, throw_if, or_throw, query, gets, draw,
  with_transaction, ◌>>=◌, ◌>>◌, User, OtpPurpose, registration, password_reset,
}
use market_place.Auth.Env.{Env, OtpProviderKind, console, akedly}
use market_place.Auth.Provider.{StartPayload, StartResult, OtpProvider, CheckResult}
use market_place.Auth.StateStore.{
  saved_transaction, clear_otp_transaction_req_id, save_otp_transaction_req_id,
}
use market_place.Auth.Tokens.{TokenPair, generate_tokens}
use market_place.Auth.Session.{is_active, account_of, present}
use market_place.Auth.Registration.{
  OtpResponse, plain, build_otp_sent_response, is_akedly, live_pending_of, use_otp,
}

pub record ResetPasswordDto : Type 0 where
  pub phone : String
  pub otp : String
  pub transaction_req_id : Option String
  pub new_password : String
  pub confirm_password : String

pub record AkedlySendOtpDto : Type 0 where
  pub phone_number : String
  pub purpose : OtpPurpose
  pub pow_solution : Option String
  pub turnstile_token : Option String

abbrev is_registration : OtpPurpose → Bool
is_registration registration = true
is_registration password_reset = false

module _ (env : Env) where
  -- the callback of the transaction
  unfoldable pub complete_reset : String → String → CheckResult → Action TokenPair
  complete_reset phone new_password verified = do
    found ← gets (λ w. find? (account_of phone) w.db.users)
    user ← or_throw found (http bad_request "User not found")
    throw_if (not (is_active user.status)) (http unauthorized "Invalid credentials")
    salt ← draw
    query (λ d. record d {
      users =
          update_where (λ (u : User). u.id == user.id)
            (λ u. record u { password_hash = env.bcrypt_hash new_password salt }) d.users;
    })
    updated ← gets (λ w. find? (λ (u : User). u.id == user.id) w.db.users)
    row ← or_throw updated (http bad_request "User not found")
    use_otp verified.local_otp_id
    clear_otp_transaction_req_id phone password_reset
    generate_tokens env row.id row.phone user.is_admin user.token_version

module _ (env : Env) (provider : OtpProvider) where
  -- what is done for the account that was found
  unfoldable pub start_reset : String → Option User → Action OtpResponse
  start_reset phone none = pure (plain "If this number is registered, an OTP has been sent")
  start_reset phone (some user) =
      if is_akedly env.otp_provider
      then pure
          (plain "If this number is registered, complete Shield flow then call /auth/akedly/send")
      else (provider.start_verification (record {
        phone = phone;
        purpose = password_reset;
        user_id = some user.id;
        end_user_ip = none;
        pow_solution = none;
        turnstile_token = none;
      })
          >>= λ result. pure (build_otp_sent_response result))

  unfoldable pub request_password_reset_otp : String → Action OtpResponse
  request_password_reset_otp phone = do
    found ← gets (λ w. find? (account_of phone) w.db.users)
    start_reset phone found

  -- the tokens come with the message "Password reset successfully"
  unfoldable pub reset_password : ResetPasswordDto → Action TokenPair
  reset_password dto = do
    throw_if (not (str_eq dto.new_password dto.confirm_password))
        (http bad_request "Passwords do not match")
    saved ← saved_transaction dto.transaction_req_id dto.phone password_reset
    verified ← provider.check_verification (record {
      phone = dto.phone;
      code = dto.otp;
      purpose = password_reset;
      transaction_req_id = saved;
    })
    with_transaction (complete_reset env dto.phone dto.new_password verified)

  -- the part of `sendAkedlyOtp` behind its checks
  unfoldable pub start_akedly : AkedlySendOtpDto → String → Action OtpResponse
  start_akedly dto end_user_ip = do
    result ← provider.start_verification (record {
      phone = dto.phone_number;
      purpose = dto.purpose;
      user_id = none;
      end_user_ip = some end_user_ip;
      pow_solution = dto.pow_solution;
      turnstile_token = dto.turnstile_token;
    })
    elim (present result.transaction_req_id) as (λ _. Action (Unit {0})) [
      | none ↦ pure tt
      | some id ↦
          save_otp_transaction_req_id dto.phone_number dto.purpose id (env.otp_ttl_minutes * 60)
    ]
    pure (build_otp_sent_response result)

  unfoldable pub send_akedly_otp : AkedlySendOtpDto → String → Action OtpResponse
  send_akedly_otp dto end_user_ip = do
    throw_if (not (is_akedly env.otp_provider)) (http bad_request "AKEDLY is not enabled")
    now ← gets (λ w. w.now)
    pending ← gets (λ w. any (live_pending_of dto.phone_number now) w.db.pendings)
    known ← gets (λ w. any (account_of dto.phone_number) w.db.users)
    if is_registration dto.purpose
        then (throw_if (not pending) (http not_found "No pending registration found for this phone")
            >> start_akedly dto end_user_ip)
        else if not known
        then pure (plain "If this number is registered, an OTP has been sent")
        else start_akedly dto end_user_ip
