-- ===== src/Ids.antt =====
-- internal/platform/ids/ids.go: the primary keys and the public identifiers.
pub mod Uuid
pub mod Monotone
pub mod Public
pub mod Readable
mod Tests
