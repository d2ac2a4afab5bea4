-- ===== src/Ranking.antt =====
-- The order of listings, internal/modules/ranking.
mod Tests
pub mod Formula
pub mod Sorting
pub mod Exposure
pub mod Reproducible
