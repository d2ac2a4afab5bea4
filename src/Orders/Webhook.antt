-- ===== src/Orders/Webhook.antt =====
-- `HandleWebhook` of internal/modules/orders/webhook.go.
pub mod Handler
pub mod Rows
pub mod Claims
pub mod Once
pub mod Effects
mod Tests
