-- ===== src/Vault/Error.antt =====
-- crates/openvault-core/src/error.rs: the error type and `VaultResult`.
use open_vault.Common.{String, ◌≡◌, refl, Bool, true, false, [], ◌∷◌, ◌⊎◌, inl, inr}
use open_vault.Vault.Texts.{text, Message}

-- An `std::io::Error` and a `serde_yaml::Error` are the text that they display.
pub data VaultError : Type 0 where
  io : Message → VaultError
  config : Message → VaultError
  snapshot_not_found : String → VaultError
  storage : Message → VaultError
  backup_failed : Message → VaultError
  restore_failed : Message → VaultError
  checksum_mismatch : String → String → String → VaultError
  serialization : Message → VaultError
  crypto : Message → VaultError
  integrity : Message → VaultError
  unsupported_backend : Message → VaultError
  policy_violation : Message → VaultError
  self_healing_failed : Message → VaultError
  compression : Message → VaultError
  incremental_error : Message → VaultError

-- The `#[error(…)]` attributes.
unfoldable pub display : VaultError → Message
display (VaultError.io m) = text "IO error: " ∷ m
display (VaultError.config m) = text "Configuration error: " ∷ m
display (VaultError.snapshot_not_found s) = text "Snapshot not found: " ∷ text s ∷ []
display (VaultError.storage m) = text "Storage error: " ∷ m
display (VaultError.backup_failed m) = text "Backup failed: " ∷ m
display (VaultError.restore_failed m) = text "Restore failed: " ∷ m
display (VaultError.checksum_mismatch path expected actual) =
    text "Checksum mismatch for "
    ∷ text path
    ∷ text ": expected "
    ∷ text expected
    ∷ text ", got "
    ∷ text actual
    ∷ []
display (VaultError.serialization m) = text "Serialization error: " ∷ m
display (VaultError.crypto m) = text "Cryptography error: " ∷ m
display (VaultError.integrity m) = text "Integrity verification failed: " ∷ m
display (VaultError.unsupported_backend m) = text "Unsupported backend: " ∷ m
display (VaultError.policy_violation m) = text "Policy violation: " ∷ m
display (VaultError.self_healing_failed m) = text "Self-healing failed: " ∷ m
display (VaultError.compression m) = text "Compression error: " ∷ m
display (VaultError.incremental_error m) = text "Incremental backup error: " ∷ m

pub data VaultResult {ℓ} (A : Type ℓ) : Type ℓ where
  ok : A → VaultResult A
  err : VaultError → VaultResult A

infixl 5 ◌>>=◌
abbrev pub ◌>>=◌ {ℓ κ} :
    {A : Type ℓ} {B : Type κ} → VaultResult A → (A → VaultResult B) → VaultResult B
ok a >>= f = f a
err e >>= f = err e

infixl 5 ◌>>◌
abbrev pub ◌>>◌ {ℓ} : {B : Type ℓ} → VaultResult (Unit {0}) → VaultResult B → VaultResult B
m >> k = m >>= λ _. k

abbrev pub map_err {ℓ} : {A : Type ℓ} → (VaultError → VaultError) → VaultResult A → VaultResult A
map_err f (ok a) = ok a
map_err f (err e) = err (f e)

abbrev pub is_ok {ℓ} : {A : Type ℓ} → VaultResult A → Bool
is_ok (ok a) = true
is_ok (err e) = false

pub VaultResult-cases {ℓ} :
    {A : Type ℓ} (r : VaultResult A) → ((a : A) × (r ≡ ok a)) ⊎ ((e : VaultError) × (r ≡ err e))
VaultResult-cases (ok a) = inl (a, refl)
VaultResult-cases (err e) = inr (e, refl)

pub ok-injective {ℓ} : {A : Type ℓ} {a b : A} → ok a ≡ ok b → a ≡ b
ok-injective {a = a} e = cc
