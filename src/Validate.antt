-- ===== src/Validate.antt =====
-- internal/platform/validate/validate.go: the checks of what users send.
pub mod Fields
pub mod Checksum
mod Tests
