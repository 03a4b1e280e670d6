-- ===== src/Replicator.antt =====
-- crates/openvault-core/src/replicator.rs: the replication of a snapshot to several backends, and
-- the check over all of them. The counters are u32. The scan after a copy never fails, so that its
-- `?` has nothing to return.
pub mod Counts
pub mod Retry
pub mod Checkup
pub mod Remediation
pub mod Maintenance
pub mod Upkeep
use open_vault.Common.{
  ℕ, ◌+◌, ◌%◌, ◌^◌, String, Bool, true, false, not, Option, none, some, List, [], ◌∷◌, ◌++◌, concat,
  if◌then◌else◌, nat_beq, ◌&&◌, length,
}
use open_vault.Vault.{
  text, Message, Bytes, VaultError, VaultResult, ok, err, ◌>>=◌, display, VaultStorage, Snapshot,
  FileEntry,
}
use open_vault.Policy.{Policy321, PolicyHealth, check_health}
use open_vault.Policy
use open_vault.Healing.{ScanResult, scan, is_all_healthy}

pub record ReplicatorConfig : Type 0 where
  pub policy : Policy321
  pub auto_remediate : Bool
  pub verify_after_replicate : Bool

pub record ReplicationResult : Type 0 where
  pub snapshot_id : String
  pub backends_replicated : ℕ
  pub backends_failed : ℕ
  pub successful_backends : List String
  pub failed_backends : List String
  pub errors : List (String × Message)

unfoldable pub is_full_success : ReplicationResult → Bool
is_full_success r = nat_beq r.backends_failed 0

abbrev pub no_backends : String → ReplicationResult
no_backends id = record {
  snapshot_id = id;
  backends_replicated = 0;
  backends_failed = 0;
  successful_backends = [];
  failed_backends = [];
  errors = [];
}

-- A backend that has the snapshot, and one that does not, with what went wrong.
abbrev pub succeeded : String → ReplicationResult → ReplicationResult
succeeded label r = record r {
  backends_replicated = (r.backends_replicated + 1) % 2 ^ 32;
  successful_backends = r.successful_backends ++ label ∷ [];
}

abbrev pub failed : String → List (String × Message) → ReplicationResult → ReplicationResult
failed label problems r = record r {
  backends_failed = (r.backends_failed + 1) % 2 ^ 32;
  failed_backends = r.failed_backends ++ label ∷ [];
  errors = r.errors ++ problems;
}

module _ {S : Type 0} (sha256 : Bytes → String) (ops : VaultStorage S) where
  -- The loop over the entries; what went wrong is `none` where `copy_ok` stays true.
  unfoldable pub copy_data : S → String → List FileEntry → S → Option Message × S
  copy_data from id [] target = (none, target)
  copy_data from id (entry ∷ rest) target = elim (ops.retrieve_file from id entry.path) [
    | err e ↦ (
      some (text "Failed to read file " ∷ text entry.path ∷ text " from source: " ∷ display e),
      target,
    )
    | ok bytes ↦
        let (done, target') = ops.store_file target id entry.path bytes in
        elim done [
          | ok _ ↦ copy_data from id rest target'
          | err e ↦ (
            some (text "Failed to store file " ∷ text entry.path ∷ text ": " ∷ display e),
            target',
          )
        ]
  ]

  -- The verification behind a copy.
  abbrev pub verified : Bool → Bool → String → ReplicationResult → ReplicationResult
  verified false healthy name r = succeeded name r
  verified true true name r = succeeded name r
  verified true false name r = failed (concat name " (verify failed)") [] r

  module _ (config : ReplicatorConfig) (snapshot : Snapshot) (from : S) where
    abbrev pub after_data : String → ReplicationResult → Option Message × S → ReplicationResult × S
    after_data name r (some m, target) = (failed name ((name, m) ∷ []) r, target)
    after_data name r (none, target) = (
      verified config.verify_after_replicate (is_all_healthy (scan sha256 ops target snapshot)) name
          r,
      target,
    )

    abbrev pub after_metadata :
        String → ReplicationResult → VaultResult (Unit {0}) × S → ReplicationResult × S
    after_metadata name r (err e, target) = (
      failed name ((name, text "Failed to store snapshot metadata: " ∷ display e) ∷ []) r,
      target,
    )
    after_metadata name r (ok _, target) =
        after_data name r (copy_data from snapshot.id snapshot.entries target)

    abbrev pub after_load :
        S → String → ReplicationResult → VaultResult Snapshot → ReplicationResult × S
    after_load target name r (ok _) = (succeeded (concat name " (existing)") r, target)
    after_load target name r (err e) = after_metadata name r (ops.store_snapshot target snapshot)

    -- One round of the loop over the targets.
    unfoldable pub replicate_one : ReplicationResult → S → ReplicationResult × S
    replicate_one r target =
        after_load target (ops.backend_name target) r (ops.load_snapshot target snapshot.id)

    unfoldable pub replicate_targets : ReplicationResult → List S → ReplicationResult × List S
    replicate_targets r [] = (r, [])
    replicate_targets r (target ∷ rest) =
        let (r', target') = replicate_one r target in
        let (done, rest') = replicate_targets r' rest in (done, target' ∷ rest')

    unfoldable pub replicate_snapshot : List S → VaultResult ReplicationResult × List S
    unfolding replicate_targets
    replicate_snapshot targets =
        let (result, targets') = replicate_targets (no_backends snapshot.id) targets in
        (ok result, targets')

-- The report of a check over all backends.
pub record HealthCheckResult : Type 0 where
  pub policy_health : PolicyHealth
  pub scan_results : List (String × ScanResult)
  pub backends_checked : ℕ
  pub backends_with_corruption : ℕ

unfoldable pub is_healthy : HealthCheckResult → Bool
is_healthy r = r.policy_health.healthy && nat_beq r.backends_with_corruption 0

module _ {S : Type 0} (sha256 : Bytes → String) (ops : VaultStorage S) where
  abbrev pub after_latest :
      HealthCheckResult → S → VaultResult (Option Snapshot) → HealthCheckResult
  after_latest r storage (ok none) = r
  after_latest r storage (err e) = r
  after_latest r storage (ok (some snapshot)) = record r {
    backends_with_corruption =
        if is_all_healthy (scan sha256 ops storage snapshot)
        then r.backends_with_corruption
        else (r.backends_with_corruption + 1) % 2 ^ 32;
    scan_results =
        r.scan_results ++ (ops.backend_name storage, scan sha256 ops storage snapshot) ∷ [];
  }

  -- The loop over the storages.
  unfoldable pub scan_backends : String → HealthCheckResult → List S → HealthCheckResult
  scan_backends source r [] = r
  scan_backends source r (storage ∷ rest) =
      scan_backends source (after_latest r storage (ops.latest_snapshot storage source)) rest

  unfoldable pub coordinator_check :
      ReplicatorConfig → String → List S → VaultResult HealthCheckResult
  unfolding scan_backends
  coordinator_check config source storages = do
    health ← check_health ops config.policy source storages
    ok (
        scan_backends source
          (record {
            policy_health = health;
            scan_results = [];
            backends_checked = length storages % 2 ^ 32;
            backends_with_corruption = 0;
          })
          storages)
