-- ===== src/Files.antt =====
-- Files and their storage: src/files.
pub mod ReadUrl
pub mod Storage
pub mod Uploads
