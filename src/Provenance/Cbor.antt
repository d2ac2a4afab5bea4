-- ===== src/Provenance/Cbor.antt =====
-- internal/modules/provenance/cbor.go: a decoder for hostile input, and the encoder of COSE.
pub mod Values
pub mod Access
pub mod Decode
pub mod Encode
pub mod Bounds
pub mod RoundTrip
