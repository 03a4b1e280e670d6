-- ===== src/Vault.antt =====
-- The vocabulary that every component shares: error.rs, snapshot.rs and storage.rs of
-- crates/openvault-core. The children hold one file of the crate each.
mod Texts
mod Error
pub mod Snapshots
mod Storage
pub use Texts.*
unfoldable pub use Error.*
pub use Snapshots.{
  FileEntry, BackupStrategy, full, incremental, differential, Snapshot, BackupEntry,
}
pub use Storage.*
