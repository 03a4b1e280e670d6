-- ===== src/Incremental/Restore/Files.antt =====
-- What `restore_file` writes, and what it leaves alone.
use open_vault.Common.{
  ℕ, ◌≡◌, inl, inr, refl, String, length, if◌then◌else◌, ◌==◌, string_eq, eq_iff, arith, Bool-cases,
}
use open_vault.Vault.{Bytes, VaultError, VaultResult, ok, err, VaultStorage, VaultResult-cases}
use open_vault.Fs.{Fs, join, read, write}
use open_vault.Fs.Laws.{read-write, write-cases}
use open_vault.Incremental.ChunkStore.{ChunkStore}
use open_vault.Incremental.Manifest.{FileChunks}
use open_vault.Incremental.Restore.{make_parent, write_file, write_verified, restore_file}

write_file-ok :
    (fs : Fs) (path : String) (bytes : Bytes) (n : ℕ)
    → (write_file fs path bytes).0 ≡ ok n
    → (n ≡ length bytes)
      × ((write fs path bytes).0 ≡ ok tt)
      × ((write_file fs path bytes).1 ≡ (write fs path bytes).1)
unfolding write_file
write_file-ok fs path bytes n e = ground arith

write_file-err :
    (fs : Fs) (path : String) (bytes : Bytes) (x : VaultError)
    → (write_file fs path bytes).0 ≡ err x
    → (write_file fs path bytes).1 ≡ fs
unfolding write_file
write_file-err fs path bytes x e = ground (arith, write-cases fs path bytes)

module _ (sha256 : Bytes → String) {S : Type 0} (ops : VaultStorage S) where
  pub Written : FileChunks → String → Fs → ℕ → Fs → Type 0
  Written file path fs n fs' =
      (bytes : Bytes) × (sha256 bytes ≡ file.file_hash)
      × (n ≡ length bytes)
      × ((other : String) → read fs' other ≡ (if path == other then ok bytes else read fs other))

  write_verified-Written :
      (file : FileChunks) (path : String) (fs : Fs) (r : VaultResult Bytes) (n : ℕ)
      → (write_verified sha256 ops file path fs r).0 ≡ ok n
      → Written file path fs n (write_verified sha256 ops file path fs r).1
  unfolding write_verified Written
  write_verified-Written file path fs (err x) n e = absurd (ground arith)
  write_verified-Written file path fs (ok bytes) n e =
      elim (Bool-cases (sha256 bytes == file.file_hash)) [
        | inl same ↦ rw same (
            let (size, done, state) = write_file-ok fs path bytes n (rw same at e) in
            (
              bytes,
              (eq_iff _ _).0 same,
              size,
              λ other. rw state (read-write fs path bytes done other),
            ))
        | inr other ↦ absurd (ground arith)
      ]

  write_verified-err :
      (file : FileChunks) (path : String) (fs : Fs) (r : VaultResult Bytes) (x : VaultError)
      → (write_verified sha256 ops file path fs r).0 ≡ err x
      → (write_verified sha256 ops file path fs r).1 ≡ fs
  unfolding write_verified
  write_verified-err file path fs (err y) x e = refl
  write_verified-err file path fs (ok bytes) x e = ground (arith, write_file-err fs path bytes x)

  -- Where `restore_file` succeeds, the file at its path holds bytes with the hash of the manifest,
  -- their number is returned, and no other file has changed.
  pub restore_file-Written :
      (cs : ChunkStore S) (snapshot_id : String) (file : FileChunks) (target : String) (fs : Fs)
      (n : ℕ)
      → (restore_file sha256 ops cs snapshot_id file target fs).0 ≡ ok n
      → Written file
          (join target file.path)
          fs
          n
          (restore_file sha256 ops cs snapshot_id file target fs).1
  unfolding restore_file
  restore_file-Written cs snapshot_id file target fs n e =
      let path = join target file.path in
      elim (VaultResult-cases (make_parent fs path)) [
        | inl (u, made) ↦ rw made (write_verified-Written file path fs _ n (rw made at e))
        | inr (x, failed) ↦ absurd (cc (rw failed at e))
      ]

  -- Where `restore_file` fails, the file system is as before: no bytes of another hash and no part
  -- of a file are written.
  pub restore_file-err :
      (cs : ChunkStore S) (snapshot_id : String) (file : FileChunks) (target : String) (fs : Fs)
      (x : VaultError)
      → (restore_file sha256 ops cs snapshot_id file target fs).0 ≡ err x
      → (restore_file sha256 ops cs snapshot_id file target fs).1 ≡ fs
  unfolding restore_file
  restore_file-err cs snapshot_id file target fs x e =
      let path = join target file.path in
      elim (VaultResult-cases (make_parent fs path)) [
        | inl (u, made) ↦ rw made (write_verified-err file path fs _ x (rw made at e))
        | inr (y, failed) ↦ rw failed refl
      ]
