-- ===== src/Http.antt =====
-- What the HTTP side does with every request: src/common/interceptors, src/common/filters,
-- src/common/cors and the start-up checks of src/config/configuration.ts.
pub mod Envelope
pub mod Answers
