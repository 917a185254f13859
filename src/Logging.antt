-- ===== src/Logging.antt =====
-- Structured logs: src/common/logging and src/common/interceptors/logging.interceptor.ts.
pub mod Sanitize
pub mod Logger
pub mod Redaction
pub mod Bounds
