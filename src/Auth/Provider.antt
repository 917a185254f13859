-- ===== src/Auth/Provider.antt =====
-- The interface OtpVerificationProvider, src/auth/otp-sender/otp-sender.interface.ts.
use market_place.Base.{ℕ, String, Option}
use market_place.Store.{Action, OtpPurpose}

-- `powSolution` is passed on as it is
pub record StartPayload : Type 0 where
  pub phone : String
  pub purpose : OtpPurpose
  pub user_id : Option ℕ
  pub end_user_ip : Option String
  pub pow_solution : Option String
  pub turnstile_token : Option String

pub record StartResult : Type 0 where
  pub otp : Option String
  pub transaction_req_id : Option String

pub record CheckPayload : Type 0 where
  pub phone : String
  pub code : String
  pub purpose : OtpPurpose
  pub transaction_req_id : Option String

pub record CheckResult : Type 0 where
  pub local_otp_id : Option ℕ

-- OtpVerificationProvider
pub record OtpProvider : Type 0 where
  pub start_verification : StartPayload → Action StartResult
  pub check_verification : CheckPayload → Action CheckResult
