-- ===== src/Provenance/Cose.antt =====
-- The signature over a claim: `verifyCOSESign1`, `findX5Chain`, `verifySignature` and what they call, of
-- internal/modules/provenance/c2pa.go. The cryptography, and the parser of certificates, are a
-- parameter.
pub mod Algorithm
pub mod Message
pub mod Binds
pub mod Verified
