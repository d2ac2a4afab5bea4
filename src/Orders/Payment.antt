-- ===== src/Orders/Payment.antt =====
-- The ways in which an order becomes paid, of internal/modules/orders/confirm.go and webhook.go.
pub mod Handler
pub mod Licenses
pub mod Elsewhere
pub mod Awaiting
pub mod Entitled
pub mod Late
pub mod Tests
