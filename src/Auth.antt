-- ===== src/Auth.antt =====
-- src/auth: OTP verification, registration, login, token rotation and password reset.
pub mod Env
pub mod StateStore
pub mod Provider
pub mod Console
pub mod Akedly
pub mod Tokens
pub mod Session
pub mod Registration
pub mod Password
pub mod Strategy
