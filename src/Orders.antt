-- ===== src/Orders.antt =====
-- Package internal/modules/orders: captures, refunds and settlements, and the state machine.
pub mod Types
pub mod Refund
pub mod Amounts
pub mod Entries
pub mod Reversal
pub mod Machine
pub mod Settlement
pub mod Offsets
pub mod Release
pub mod Capture
pub mod Balanced
pub mod Fees
pub mod Chargeback
pub mod Loss
pub mod Webhook
pub mod Dispute
pub mod Payment
mod Tests
