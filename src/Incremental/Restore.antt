-- ===== src/Incremental/Restore.antt =====
-- `BackupRestore` of crates/openvault-core/src/incremental.rs over the file system.
pub mod Files
pub mod Roundtrip
use open_vault.Common.{
  ℕ, ◌+◌, String, Option, none, some, List, [], ◌∷◌, ◌++◌, length, if◌then◌else◌, ◌==◌, string_eq,
}
use open_vault.Common.Map.{Map}
use open_vault.Vault.{
  text, Message, Bytes, VaultError, VaultResult, ok, err, map_err, display, VaultStorage,
}
use open_vault.Fs.{Fs, join, parent, write, create_dir_all}
use open_vault.Incremental.ChunkStore.{ChunkStore, retrieve_chunk}
use open_vault.Incremental.Manifest.{FileChunks, BackupManifest, get_file_chunks, file_paths}

pub record RestoreReport : Type 0 where
  pub files_restored : ℕ
  pub total_bytes : ℕ
  pub chunks_reused : ℕ
  pub duration_ms : ℕ

abbrev incremental : Message → VaultError
incremental m = VaultError.incremental_error m

unfoldable pub make_parent : Fs → String → VaultResult (Unit {0})
make_parent fs path = elim (parent path) [
  | none ↦ ok tt
  | some dir ↦
      map_err
        (λ e.
          incremental
            (text "Failed to create parent directory " ∷ text dir ∷ text ": " ∷ display e))
        (create_dir_all fs dir)
]

unfoldable pub write_file : Fs → String → Bytes → VaultResult ℕ × Fs
write_file fs path bytes =
    let (done, fs') = write fs path bytes in
    elim done [
      | ok _ ↦ (ok (length bytes), fs')
      | err e ↦ (
        err (incremental (text "Failed to write file " ∷ text path ∷ text ": " ∷ display e)),
        fs',
      )
    ]

-- The `?` behind the parent directory.
abbrev after : VaultResult (Unit {0}) → Fs → VaultResult ℕ × Fs → VaultResult ℕ × Fs
after (ok _) fs r = r
after (err e) fs r = (err e, fs)

module _ (sha256 : Bytes → String) {S : Type 0} (ops : VaultStorage S) where
  -- The loop that reassembles a file.
  unfoldable pub reassemble : ChunkStore S → String → List String → VaultResult Bytes
  reassemble cs snapshot_id [] = ok []
  reassemble cs snapshot_id (hash ∷ rest) =
      let tail = reassemble cs snapshot_id rest in
      elim (retrieve_chunk ops cs snapshot_id hash) [
        | ok bytes ↦ elim tail [ ok more ↦ ok (bytes ++ more) | err e ↦ err e ]
        | err e ↦ err e
      ]

  -- The check of the hash, and the write.
  unfoldable pub write_verified : FileChunks → String → Fs → VaultResult Bytes → VaultResult ℕ × Fs
  write_verified file path fs (err e) = (err e, fs)
  write_verified file path fs (ok bytes) =
      if sha256 bytes == file.file_hash then write_file fs path bytes else (
        err (
            incremental (
              text "File hash mismatch for "
              ∷ text file.path
              ∷ text ": expected "
              ∷ text file.file_hash
              ∷ text ", got "
              ∷ text (sha256 bytes)
              ∷ [])),
        fs,
      )

  unfoldable pub restore_file :
      ChunkStore S → String → FileChunks → String → Fs → VaultResult ℕ × Fs
  restore_file cs snapshot_id file target fs =
      let path = join target file.path in
      after (make_parent fs path) fs
        (write_verified file path fs (reassemble cs snapshot_id file.chunk_hashes))

  pub count_restored : VaultResult ℕ → RestoreReport → RestoreReport
  count_restored (ok bytes) report = record report {
    files_restored = report.files_restored + 1;
    total_bytes = report.total_bytes + bytes;
  }
  count_restored (err _) report = report

  -- The loop of `restore_all`, which goes on behind a file that fails.
  pub restore_each :
      ChunkStore S → String → Map FileChunks → String → RestoreReport → Fs → RestoreReport × Fs
  restore_each cs snapshot_id [] target report fs = (report, fs)
  restore_each cs snapshot_id ((_, file) ∷ rest) target report fs =
      let (restored, fs') = restore_file cs snapshot_id file target fs in
      restore_each cs snapshot_id rest target (count_restored restored report) fs'

  -- The loop of `restore_files`, which passes over the paths that the manifest does not have.
  pub restore_named :
      ChunkStore S
      → String
      → BackupManifest
      → List String
      → String
      → RestoreReport
      → Fs
      → RestoreReport × Fs
  restore_named cs snapshot_id manifest [] target report fs = (report, fs)
  restore_named cs snapshot_id manifest (path ∷ rest) target report fs =
      elim (get_file_chunks manifest path) [
        | none ↦ restore_named cs snapshot_id manifest rest target report fs
        | some file ↦
            let (restored, fs') = restore_file cs snapshot_id file target fs in
            restore_named cs snapshot_id manifest rest target (count_restored restored report) fs'
      ]

  abbrev empty_report : RestoreReport
  empty_report = record { files_restored = 0; total_bytes = 0; chunks_reused = 0; duration_ms = 0 }

  -- The frame of both: the target is made, and the duration recorded.
  pub in_target :
      String → ℕ → (RestoreReport → Fs → RestoreReport × Fs) → Fs → VaultResult RestoreReport × Fs
  in_target target duration loop fs = elim (create_dir_all fs target) [
    | ok _ ↦
        let (report, fs') = loop empty_report fs in
        (ok (record report { duration_ms = duration }), fs')
    | err e ↦ (err (incremental (text "Failed to create target directory: " ∷ display e)), fs)
  ]

  pub restore_all :
      ChunkStore S → String → BackupManifest → String → ℕ → Fs → VaultResult RestoreReport × Fs
  unfolding in_target restore_each
  restore_all cs snapshot_id manifest target duration =
      in_target target duration (restore_each cs snapshot_id manifest.files target)

  pub restore_files :
      ChunkStore S
      → String
      → BackupManifest
      → String
      → List String
      → ℕ
      → Fs
      → VaultResult RestoreReport × Fs
  unfolding in_target restore_named
  restore_files cs snapshot_id manifest target file_paths duration =
      in_target target duration (restore_named cs snapshot_id manifest file_paths target)

pub list_files : BackupManifest → List String
list_files = file_paths
