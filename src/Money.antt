-- ===== src/Money.antt =====
-- internal/platform/money: exact amounts in minor units.
pub mod Types
pub mod Wide
pub mod Exact
pub mod Round
pub mod Arith
pub mod Sums
pub mod Split
mod Tests
