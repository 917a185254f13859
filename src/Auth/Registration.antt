-- ===== src/Auth/Registration.antt =====
-- Registration in src/auth/auth.service.ts: `requestRegistrationOtp`, `resendRegistrationOtp` and
-- `verifyRegistrationOtp`. A request runs at one instant, so NOW() is the same for its statements.
pub mod Complete
pub mod Verify
use market_place.Base.{
  ℕ, ◌+◌, ◌*◌, String, Bool, true, false, Option, none, some, List, ◌∷◌, str_eq, ◌&&◌, not, ◌==◌,
  find?, any, delete_where, update_where, is_some, if◌then◌else◌, ltb, or_else,
}
use market_place.Store.{
  World, Action, ok, err, http, bad_request, conflict, not_found, pure, throw, throw_if, or_throw,
  query, gets, fresh_id, draw, try_catch, with_transaction, ◌>>=◌, ◌>>◌, Error, User, active, Otp,
  Pending, registration,
}
use market_place.Auth.Env.{Env, OtpProviderKind, console, akedly}
use market_place.Auth.Provider.{StartPayload, StartResult, OtpProvider, CheckResult}
use market_place.Auth.StateStore.{saved_transaction, clear_otp_transaction_req_id}
use market_place.Auth.Tokens.{generate_tokens, map_to_app_user}
use market_place.Auth.Session.{LoginResponse}

-- `{ message, otp? }`
pub record OtpResponse : Type 0 where
  pub message : String
  pub otp : Option String

abbrev pub plain : String → OtpResponse
plain m = record { message = m; otp = none }

unfoldable pub build_otp_sent_response : StartResult → OtpResponse
build_otp_sent_response r = record { message = "OTP sent"; otp = r.otp }

abbrev pub is_akedly : OtpProviderKind → Bool
is_akedly akedly = true
is_akedly console = false

abbrev pub pending_of : String → Pending → Bool
pending_of phone p = str_eq p.phone phone

-- `phone = $1 AND expires_at > NOW()`
abbrev pub live_pending_of : String → ℕ → Pending → Bool
live_pending_of phone now p = pending_of phone p && ltb now p.expires_at

abbrev pub has_phone : String → User → Bool
has_phone phone u = str_eq u.phone phone

-- INSERT … ON CONFLICT (phone) DO UPDATE … RETURNING id
unfoldable pub upsert_pending : Pending → List Pending → List Pending
upsert_pending new rows =
    if any (pending_of new.phone) rows
    then update_where (pending_of new.phone)
        (λ p. record p {
          name = new.name;
          password_hash = new.password_hash;
          expires_at = new.expires_at;
        })
        rows
    else new ∷ rows

abbrev pub pending_id : Option Pending → ℕ → ℕ
pending_id none new = new
pending_id (some p) new = p.id

-- the payload without the fields of the Akedly flow
abbrev pub plain_start : String → Option ℕ → StartPayload
plain_start phone user_id = record {
  phone = phone;
  purpose = registration;
  user_id = user_id;
  end_user_ip = none;
  pow_solution = none;
  turnstile_token = none;
}

-- UPDATE auth_otps SET used_at = NOW() WHERE id = $1, if there is a local row
unfoldable pub use_otp : Option ℕ → Action (Unit {0})
use_otp none = pure tt
use_otp (some id) = do
  now ← gets (λ w. w.now)
  query (λ d. record d {
    otps = update_where (λ (o : Otp). o.id == id) (λ o. record o { used_at = some now }) d.otps;
  })

-- the row of a new account, with the defaults of the table
abbrev pub new_user : ℕ → String → String → String → User
new_user id name phone password_hash = record {
  id = id;
  name = name;
  phone = phone;
  password_hash = password_hash;
  avatar_file_id = none;
  contact_info = none;
  status = active;
  is_admin = false;
  token_version = 0;
  deleted_at = none;
}

-- INSERT INTO users; a phone that is taken violates the unique key, which the caller turns into 409
unfoldable pub insert_user : String → String → String → Action User
insert_user name phone password_hash = do
  id ← fresh_id
  taken ← gets (λ w. any (has_phone phone) w.db.users)
  throw_if taken (http conflict "Phone already exists")
  let user = new_user id name phone password_hash
  query (λ d. record d { users = user ∷ d.users })
  pure user

module _ (env : Env) where
  -- the callback of the transaction
  unfoldable pub complete_registration : String → CheckResult → Action LoginResponse
  complete_registration phone verified = do
    now ← gets (λ w. w.now)
    found ← gets (λ w. find? (live_pending_of phone now) w.db.pendings)
    pending ← or_throw found (http bad_request "Registration session expired or not found")
    user ← insert_user pending.name phone pending.password_hash
    use_otp verified.local_otp_id
    clear_otp_transaction_req_id phone registration
    query (λ d. record d { pendings = delete_where (pending_of phone) d.pendings })
    tokens ← generate_tokens env user.id phone false 0
    pure (record { user = map_to_app_user user; tokens = tokens })

module _ (env : Env) (provider : OtpProvider) where
  unfoldable pub request_registration_otp : String → String → String → Action OtpResponse
  request_registration_otp phone name password = do
    exists ← gets (λ w. any (has_phone phone) w.db.users)
    throw_if exists (http conflict "Phone already exists")
    salt ← draw
    now ← gets (λ w. w.now)
    new_id ← fresh_id
    let row : Pending = record {
      id = new_id;
      phone = phone;
      name = name;
      password_hash = env.bcrypt_hash password salt;
      expires_at = now + env.otp_ttl_minutes * 60;
    }
    query (λ d. record d { pendings = upsert_pending row d.pendings })
    stored ← gets (λ w. find? (pending_of phone) w.db.pendings)
    let id = pending_id stored new_id
    if is_akedly env.otp_provider
        then pure (plain "Registration pending. Complete Shield flow then call /auth/akedly/send.")
        else try_catch
            (provider.start_verification (plain_start phone none) >>= λ result.
              pure (build_otp_sent_response result))
            (λ error.
              query
                (λ d. record d { pendings = delete_where (λ (p : Pending). p.id == id) d.pendings })
              >> throw error)

  unfoldable pub resend_registration_otp : String → Action OtpResponse
  resend_registration_otp phone = do
    now ← gets (λ w. w.now)
    pending ← gets (λ w. any (live_pending_of phone now) w.db.pendings)
    throw_if (not pending) (http not_found "No pending registration found for this phone")
    if is_akedly env.otp_provider
        then pure
            (plain "Pending registration found. Complete Shield flow then call /auth/akedly/send.")
        else (provider.start_verification (plain_start phone none) >>= λ result.
            pure (build_otp_sent_response result))

  unfoldable pub verify_registration_otp : String → String → Option String → Action LoginResponse
  verify_registration_otp phone otp transaction_req_id = do
    saved ← saved_transaction transaction_req_id phone registration
    verified ←
        provider.check_verification
          (record { phone = phone; code = otp; purpose = registration; transaction_req_id = saved })
    with_transaction (complete_registration env phone verified)
