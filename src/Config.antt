-- ===== src/Config.antt =====
-- Settings: src/config/configuration.ts and src/common/cors/cors-policy.ts.
pub mod Cors
pub mod Policy
pub mod Startup
pub mod Ready
