-- ===== src/RestoreEngine/Restored.antt =====
-- What a restore writes, and what its report says of it.
use open_vault.Common.{ℕ, ◌≡◌, ◌≢◌, ◌⊎◌, String, true, false, string_eq}
use open_vault.Vault.{Bytes, VaultResult, ok, is_ok, FileEntry}
use open_vault.Fs.{Fs, join, read, write}
use open_vault.RestoreEngine.{overwrite, RestoreOptions, RestoreReport, RestoreEngine}

module _ (digits : ℕ → String) (sha256 : Bytes → String) {S : Type 0}
    (engine : RestoreEngine S) where
  -- The path holds bytes with this checksum.
  abbrev pub Holds : Fs → String → String → Type 0
  Holds fs path checksum = (bytes : Bytes) × (read fs path ≡ ok bytes) × (sha256 bytes ≡ checksum)

  -- A write of bytes with the checksum of the entry.
  abbrev Put : FileEntry → String → Fs → Fs → Type 0
  Put entry path fs fs' =
      (bytes : Bytes) × (sha256 bytes ≡ entry.checksum)
      × ((write fs path bytes).0 ≡ ok tt)
      × (fs' ≡ (write fs path bytes).1)

  Outcome : FileEntry → String → Fs → VaultResult ℕ × RestoreReport × Fs → Type 0
  Outcome entry path fs r =
      ((is_ok r.0 ≡ true) × Put entry path fs r.2) ⊎ ((is_ok r.0 ≡ false) × (r.2 ≡ fs))

  module _ (s : S) (id : String) (options : RestoreOptions)
      (overwrites : options.conflict ≡ overwrite) (verifies : options.verify_checksums ≡ true) where
    abbrev place : FileEntry → String
    place entry = join options.target entry.path

    module _ (q checksum : String) where
      abbrev Agrees : FileEntry → Type 0
      Agrees e = (e.path ≢ q) ⊎ (e.checksum ≡ checksum)
