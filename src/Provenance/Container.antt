-- ===== src/Provenance/Container.antt =====
-- Where a container keeps its manifest: the walks over JPEG segments, PNG chunks, BMFF boxes and JUMBF
-- boxes of internal/modules/provenance/c2pa.go.
pub mod Scan
pub mod Jumbf
pub mod Jpeg
pub mod Store
