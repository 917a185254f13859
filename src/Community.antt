-- ===== src/Community.antt =====
-- What users do to each other besides talking: blocks, favorites, ratings and reports.
pub mod Blocks
pub mod Ratings
pub mod Favorites
