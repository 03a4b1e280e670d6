-- ===== src/Examples/Replicas.antt =====
-- Replication at concrete storages: one backend that gets a whole copy, and one whose copy fails.
use open_vault.Common.{◌≡◌, refl, none, true, false, List, [], ◌∷◌, arith, All, length}
use open_vault.Vault.{text, Message, Snapshot, VaultError, full, ok, display}
use open_vault.Policy.{
  Policy321, PolicyHealth, check_health, survey, observe, health_of, check_copies, check_media,
  check_offsite, media_types,
}
use open_vault.Healing.{scan, scan_entries, scan_entry, check_file, count_file, is_all_healthy}
use open_vault.Replicator.{
  ReplicatorConfig, ReplicationResult, copy_data, replicate_one, replicate_targets,
  replicate_snapshot, is_full_success, HealthCheckResult, coordinator_check,
}
use open_vault.Replicator.Counts.{replicate_snapshot-AllHold, AllHold}
use open_vault.Replicator.Retry.{replicate_snapshot-again, succeeds}
use open_vault.Replicator.Checkup.{coordinator_check-healthy, is_clean}
use open_vault.Replicator.Remediation.{auto_remediate, auto_remediate-unreadable, metadata_only}
use open_vault.Replicator.Maintenance.{MaintenanceResult, maintain_321}
use open_vault.Replicator.Upkeep.{maintain_321-clean}
use open_vault.Examples.Memory.{Memory, memory, memory-StorageLaws, empty}
use open_vault.Examples.Digest.{digest}

abbrev snapshot : Snapshot
snapshot = record {
  id = "snap";
  created_at = 0;
  strategy = full;
  source = "/data";
  storage_backend = "local";
  entries = record { path = "a"; size = 1; mtime = 0; checksum = digest (1 ∷ []) } ∷ [];
  parent_id = none;
  total_size = 1;
}

abbrev policy : Policy321
policy = record {
  min_copies = 3;
  min_media_types = 2;
  require_offsite = true;
  offsite_backends = "s3" ∷ [];
  auto_remediate = false;
  name = "strict";
}

abbrev config : ReplicatorConfig
config = record { policy = policy; auto_remediate = false; verify_after_replicate = true }

abbrev local : Memory
local = (memory.store_file (empty "local") "snap" "a" (1 ∷ [])).1

abbrev targets : List Memory
targets = empty "s3" ∷ empty "r2" ∷ []

abbrev report : ReplicationResult
report = record {
  snapshot_id = "snap";
  backends_replicated = 2;
  backends_failed = 0;
  successful_backends = "s3" ∷ "r2" ∷ [];
  failed_backends = [];
  errors = [];
}

reported : (replicate_snapshot digest memory config snapshot local targets).0 ≡ ok report
unfolding replicate_snapshot replicate_targets replicate_one copy_data scan scan_entries scan_entry
    check_file count_file is_all_healthy
reported = refl

succeeded_all : is_full_success report ≡ true
unfolding is_full_success
succeeded_all = refl

replicate_snapshot-AllHold_example :
    AllHold digest memory config snapshot local targets
      (replicate_snapshot digest memory config snapshot local targets).1
replicate_snapshot-AllHold_example =
    replicate_snapshot-AllHold digest memory config snapshot local targets report (omega arith)
      reported succeeded_all

-- The source lost the file.
abbrev problem : Message
problem =
    text "Failed to read file "
    ∷ text "a"
    ∷ text " from source: "
    ∷ text "Snapshot not found: "
    ∷ text "snap"
    ∷ []

replicate_snapshot-again_example :
    let (first, after) =
      replicate_snapshot digest memory config snapshot (empty "local") (empty "s3" ∷ []) in
    let (second, later) = replicate_snapshot digest memory config snapshot (empty "local") after in
    (succeeds first ≡ false) × (succeeds second ≡ true) × (later ≡ after)
unfolding copy_data display
replicate_snapshot-again_example =
    replicate_snapshot-again digest memory memory-StorageLaws config snapshot (empty "local")
      (empty "s3") (VaultError.snapshot_not_found "snap") problem refl refl refl

-- One storage has the metadata and not the file.
abbrev bare : Memory
bare = (memory.store_snapshot (empty "r2") snapshot).1

-- The source has the metadata and not the file.
abbrev emptied : Memory
emptied = (memory.store_snapshot (empty "local") snapshot).1

abbrev health : PolicyHealth
health =
    health_of policy "/data"
      (record { backend_names = "local" ∷ []; total_copies = 1; has_offsite = false })

checked : check_health memory policy "/data" (emptied ∷ empty "s3" ∷ []) ≡ ok health
unfolding check_health survey observe health_of check_copies check_media check_offsite media_types
checked = refl

ill : health.healthy ≡ false
unfolding health_of check_copies check_media check_offsite media_types
ill = refl

auto_remediate-unreadable_example :
    auto_remediate memory config "/data" emptied (empty "s3" ∷ [])
    ≡ (ok 1, metadata_only memory snapshot (empty "s3") ∷ [])
auto_remediate-unreadable_example =
    auto_remediate-unreadable memory config "/data" emptied (empty "s3") snapshot health checked ill
      refl refl refl (refl, tt)

-- The primary storage has the snapshot with its file, and the replica has lost the file.
abbrev primary : Memory
primary = (memory.store_snapshot local snapshot).1

primary_whole : is_all_healthy (scan digest memory primary snapshot) ≡ true
unfolding scan scan_entries scan_entry check_file count_file is_all_healthy
primary_whole = refl

checked_both :
    (r : HealthCheckResult) × (coordinator_check digest memory config "/data" (primary ∷ bare ∷ [])
      ≡ ok r)
checked_both =
    let r =
      coordinator_check-healthy digest memory "/data" config (primary ∷ bare ∷ []) (omega arith) in
    (r.0, r.1)

maintain_321-clean_example :
    let (done, after) = maintain_321 digest memory config "/data" primary (bare ∷ []) in
    ((result : MaintenanceResult) × (done ≡ ok result))
    × (length after ≡ 1)
    × All (λ (s : Memory). is_clean digest memory "/data" s ≡ true) after
maintain_321-clean_example =
    maintain_321-clean digest memory memory-StorageLaws config "/data" primary (bare ∷ [])
      (bare ∷ []) checked_both.0 0 (λ s id path bytes. refl) checked_both.1 refl
      ((omega arith, ((λ path. digest (1 ∷ [])), (refl, tt)), primary_whole), tt)
