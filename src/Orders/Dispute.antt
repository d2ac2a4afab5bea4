-- ===== src/Orders/Dispute.antt =====
-- Disputes of internal/modules/orders/webhook.go.
pub mod Types
pub mod Handler
pub mod Cases
pub mod Opening
pub mod Verdicts
mod Tests
