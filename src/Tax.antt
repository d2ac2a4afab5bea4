-- ===== src/Tax.antt =====
-- internal/modules/tax: what a sale owes, and how the payment is divided.
pub mod Types
pub mod Rules
pub mod Compute
pub mod Levies
pub mod Stages
pub mod Verified
pub mod Correct
mod Tests
