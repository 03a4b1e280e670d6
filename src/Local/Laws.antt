-- ===== src/Local/Laws.antt =====
-- The local backend keeps the laws of a storage on plain names.
use open_vault.Common.{◌≡◌, ◌⊎◌, String, true}
use open_vault.Vault.{Bytes}
use open_vault.Fs.{Fs, write, is_child}
use open_vault.Local.{LocalVaultStorage}

Wrote : LocalVaultStorage → String → Bytes → LocalVaultStorage → Type 0
Wrote s path bytes s' = (s' ≡ s) ⊎ (s' ≡ record s { fs = (write s.fs path bytes).1 })

Child : String → String × Bytes → Type 0
Child dir f = is_child dir f.0 ≡ true
