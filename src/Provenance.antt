-- ===== src/Provenance.antt =====
-- Content Credentials, internal/modules/provenance.
mod Tests
pub mod Cbor
pub mod Container
pub mod Ranges
pub mod Text
pub mod Strict
pub mod Claim
pub mod Cose
pub mod Binding
pub mod Evaluate
pub mod Trusted
pub mod Assess
pub mod Routed
