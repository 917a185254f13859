-- ===== src/Auth/Akedly.antt =====
-- AkedlyOtpSender, src/auth/otp-sender/akedly-otp.sender.ts. What the remote service answers to a
-- request is a parameter: a function of the request and of the number of the call.
use market_place.Base.{
  ℕ, String, Bool, false, Option, none, some, str_eq, ◌&&◌, ◌||◌, not, if◌then◌else◌, ltb, leb,
  is_some, get_or_else,
}
use Prim.Native.String.{◌++◌}
use text.Mathlib.Text.{starts_with}
use market_place.Store.{
  Action, http, bad_request, conflict, service_unavailable, pure, throw_if, or_throw, draw, ◌>>=◌,
  ◌>>◌, Error,
}
use market_place.Auth.Provider.{StartPayload, StartResult, CheckPayload, CheckResult, OtpProvider}

-- AkedlyResponse, as far as it is read: `status`, `code`, `message`, and of `data` the fields
-- `transactionReqID` and `verified`
pub record Body : Type 0 where
  pub status : Option String
  pub code : Option String
  pub message : Option String
  pub transaction_req_id : Option String
  pub verified : Bool

-- a `fetch` response; `body` is what `safeParse` makes of it
pub record Response : Type 0 where
  pub ok : Bool
  pub status : ℕ
  pub body : Option Body

pub record Remote : Type 0 where
  -- POST /transactions/send with the normalised address
  pub send : String → StartPayload → ℕ → Response
  -- POST /transactions/verify with the transaction and the code
  pub verify : String → String → ℕ → Response

unfoldable pub normalize_phone : String → String
normalize_phone phone = if starts_with phone "+" then phone else "+" ++ phone

abbrev pub message_or : Option Body → String → String
message_or none d = d
message_or (some b) d = get_or_else b.message d

-- `result?.f === t`
abbrev field_is : Option Body → (Body → Option String) → String → Bool
field_is none f t = false
field_is (some b) f t = elim (f b) as (λ _. Bool) [ none ↦ false | some s ↦ str_eq s t ]

abbrev is_client_error : ℕ → Bool
is_client_error status = leb 400 status && ltb status 500

unfoldable pub mapped_send_error : ℕ → Option Body → Error
mapped_send_error status result =
    let message = message_or result "OTP delivery failed" in
    if is_client_error status
    then http bad_request message
    else http service_unavailable ("OTP delivery failed: " ++ message)

unfoldable pub mapped_verify_error : ℕ → Option Body → Error
mapped_verify_error status result =
    let message = message_or result "Invalid or expired OTP" in
    if field_is result (λ b. b.code) "ALREADY_VERIFIED"
    then http conflict message
    else if field_is result (λ b. b.code) "INVALID_OTP"
        || field_is result (λ b. b.code) "TRANSACTION_EXPIRED"
        || is_client_error status
    then http bad_request message
    else http service_unavailable ("OTP verification failed: " ++ message)

-- a text that is empty counts as absent
abbrev non_empty : Option String → Option String
non_empty none = none
non_empty (some s) = if str_eq s "" then none else some s

abbrev sent_transaction : Option Body → Option String
sent_transaction none = none
sent_transaction (some b) = non_empty b.transaction_req_id

abbrev is_verified : Option Body → Bool
is_verified none = false
is_verified (some b) = b.verified

module _ (remote : Remote) where
  unfoldable pub start_verification : StartPayload → Action StartResult
  start_verification payload = do
    throw_if (not (is_some payload.pow_solution)) (http bad_request "powSolution is required")
    call ← draw
    let response = remote.send (normalize_phone payload.phone) payload call
    throw_if (not response.ok || field_is response.body (λ b. b.status) "error")
        (mapped_send_error response.status response.body)
    id ←
        or_throw (sent_transaction response.body)
          (http service_unavailable "OTP delivery failed: missing transactionReqID")
    pure (record { otp = none; transaction_req_id = some id })

  unfoldable pub check_verification : CheckPayload → Action CheckResult
  check_verification payload = do
    id ←
        or_throw (non_empty payload.transaction_req_id)
          (http bad_request "transactionReqID is required")
    call ← draw
    let response = remote.verify id payload.code call
    throw_if
        (not response.ok
          || field_is response.body (λ b. b.status) "error"
          || not (is_verified response.body))
        (mapped_verify_error response.status response.body)
    pure (record { local_otp_id = none })

  abbrev pub provider : OtpProvider
  provider = record {
    start_verification = start_verification;
    check_verification = check_verification;
  }
