-- ===== src/Ledger.antt =====
-- internal/modules/ledger: the double-entry journal.
pub mod Types
pub mod Post
pub mod Sound
pub mod Balance
pub mod Replay
mod Tests
