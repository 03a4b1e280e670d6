-- ===== src/Healing/Attempts.antt =====
-- What an attempt to heal one file does to the target storage.
use open_vault.Common.{
  ◌≡◌, ◌≢◌, sym, subst, inl, inr, String, true, Option, some, List, [], ◌∷◌, arith, ◌==◌, string_eq,
  Bool-cases,
}
use open_vault.Vault.{Bytes, VaultResult-cases, VaultStorage, StorageLaws}
use open_vault.Healing.{
  HealingConfig, FileCheckResult, Attempt, healed, failed, write_healed, heal_file, try_sources,
}
use open_vault.Healing.Scan.{intact}

module _ (sha256 : Bytes → String) {S : Type 0} (ops : VaultStorage S) (laws : StorageLaws ops)
    (config : HealingConfig) (id : String) where
  -- Files of the right checksum stay as they are wherever this file, which is not one, is tried.
  pub record Repairs (check : FileCheckResult) (target : S) (r : Attempt × S) : Type 0 where
    pub heals :
        (source : Option String)
        → r.0 ≡ healed source
        → intact sha256 ops r.1 id check.path check.expected_checksum ≡ true
    pub keeps :
        (path checksum : String)
        → check.path ≢ path
        → intact sha256 ops target id path checksum ≡ true
        → intact sha256 ops r.1 id path checksum ≡ true

  write_healed-Repairs :
      (source : Option String) (check : FileCheckResult) (bytes : Bytes) (target : S)
      → (sha256 bytes == check.expected_checksum) ≡ true
      → Repairs check target (write_healed sha256 ops config id source check bytes target)
  unfolding write_healed
  write_healed-Repairs source check bytes target good = record {
    heals = λ source' e. ground (arith, laws.retrieve-store_self target id check.path bytes);
    keeps = λ path checksum ne i.
        ground (arith, laws.retrieve-store_path target id check.path bytes path ne);
  }

  pub heal_file-Repairs :
      (source : Option String) (from : S) (check : FileCheckResult) (target : S)
      → Repairs check target (heal_file sha256 ops config id source from check target)
  unfolding heal_file
  heal_file-Repairs source from check target =
      elim (VaultResult-cases (ops.retrieve_file from id check.path)) [
        | inr (x, lost) ↦ record {
          heals = λ source' e. absurd (ground arith);
          keeps = λ path checksum ne i. ground arith;
        }
        | inl (bytes, there) ↦ elim (Bool-cases (sha256 bytes == check.expected_checksum)) [
          | inl good ↦
              let step : heal_file sha256 ops config id source from check target
                  ≡ write_healed sha256 ops config id source check bytes target =
                ground arith in
              subst (Repairs check target) (sym step)
                (write_healed-Repairs source check bytes target good)
          | inr bad ↦ record {
            heals = λ source' e. absurd (ground arith);
            keeps = λ path checksum ne i. ground arith;
          }
        ]
      ]

  pub try_sources-Repairs :
      (sources : List S) (check : FileCheckResult) (target : S)
      → Repairs check target (try_sources sha256 ops config id sources check target)
  unfolding try_sources
  try_sources-Repairs [] check target = record {
    heals = λ source e. absurd (ground arith);
    keeps = λ path checksum ne i. i;
  }
  try_sources-Repairs (from ∷ rest) check target =
      next (heal_file sha256 ops config id (some (ops.backend_name from)) from check target)
        (heal_file-Repairs (some (ops.backend_name from)) from check target)
        (try_sources-Repairs rest check)
    where
      next :
          (r : Attempt × S)
          → Repairs check target r
          → ((t : S) → Repairs check t (try_sources sha256 ops config id rest check t))
          → Repairs check target (elim r.0 as (λ _. Attempt × S) [
            | healed source ↦ (healed source, r.1)
            | failed why ↦ try_sources sha256 ops config id rest check r.1
          ])
      next (healed source, t) first others = first
      next (failed why, t) first others = record {
        heals = (others t).heals;
        keeps = λ path checksum ne i.
            (others t).keeps path checksum ne (first.keeps path checksum ne i);
      }
