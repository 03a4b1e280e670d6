-- ===== src/RestoreEngine/Options.antt =====
-- The options and the reports of crates/openvault-core/src/restore.rs.
use open_vault.Common.{ℕ, String, Bool, true, ◌&&◌, Option, none, some, List, [], is_empty, nat_beq}
use open_vault.Vault.{Message, Bytes, VaultResult, VaultStorage}

pub data ConflictStrategy : Type 0 where
  skip overwrite rename fail : ConflictStrategy

-- crates/openvault-core/src/crypto.rs.
pub data EncryptionAlgorithm : Type 0 where
  aes256_gcm : EncryptionAlgorithm

pub record RestoreOptions : Type 0 where
  pub target : String
  pub conflict : ConflictStrategy
  pub verify_checksums : Bool
  pub encryption : Option EncryptionAlgorithm
  pub encryption_key : Option String
  pub filter_paths : List String
  pub preserve_timestamps : Bool

abbrev pub default : RestoreOptions
default = record {
  target = ".";
  conflict = overwrite;
  verify_checksums = true;
  encryption = none;
  encryption_key = none;
  filter_paths = [];
  preserve_timestamps = true;
}

abbrev pub to : String → RestoreOptions
to target = record default { target = target }

pub with_encryption : EncryptionAlgorithm → String → RestoreOptions → RestoreOptions
with_encryption algorithm key o = record o {
  encryption = some algorithm;
  encryption_key = some key;
}

pub with_conflict_strategy : ConflictStrategy → RestoreOptions → RestoreOptions
with_conflict_strategy strategy o = record o { conflict = strategy }

pub skip_existing : RestoreOptions → RestoreOptions
skip_existing o = record o { conflict = skip }

pub overwrite_existing : RestoreOptions → RestoreOptions
overwrite_existing o = record o { conflict = overwrite }

pub rename_existing : RestoreOptions → RestoreOptions
rename_existing o = record o { conflict = rename }

pub filter_files : List String → RestoreOptions → RestoreOptions
filter_files paths o = record o { filter_paths = paths }

pub record RestoreError : Type 0 where
  pub path : String
  pub message : Message

pub record RestoreReport : Type 0 where
  pub files_restored : ℕ
  pub files_skipped : ℕ
  pub checksum_failures : ℕ
  pub errors : List RestoreError
  pub bytes_restored : ℕ
  pub files_renamed : ℕ

abbrev pub no_files : RestoreReport
no_files = record {
  files_restored = 0;
  files_skipped = 0;
  checksum_failures = 0;
  errors = [];
  bytes_restored = 0;
  files_renamed = 0;
}

unfoldable pub is_success : RestoreReport → Bool
is_success r = is_empty r.errors && nat_beq r.checksum_failures 0

pub record VerifyError : Type 0 where
  pub path : String
  pub message : Message

pub record VerifyReport : Type 0 where
  pub files_ok : ℕ
  pub files_failed : ℕ
  pub errors : List VerifyError

unfoldable pub is_ok_report : VerifyReport → Bool
is_ok_report r = nat_beq r.files_failed 0

-- The engine; a provider is the function that decrypts.
pub record RestoreEngine (S : Type 0) : Type 0 where
  pub storage : VaultStorage S
  pub crypto : Option (Bytes → VaultResult Bytes)
