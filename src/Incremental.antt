-- ===== src/Incremental.antt =====
-- crates/openvault-core/src/incremental.rs: chunking, deduplication, manifests, backup and restore.
pub mod Chunker
pub mod ChunkStore
pub mod Manifest
pub mod Backup
pub mod Restore
