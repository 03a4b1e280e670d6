-- ===== src/Examples/Repairs.antt =====
-- Healing at concrete storages.
use open_vault.Common.{
  ◌≡◌, refl, none, some, Option, String, true, List, [], ◌∷◌, arith, if◌then◌else◌, ◌==◌, string_eq,
}
use open_vault.Vault.{Bytes, Snapshot, FileEntry, full, ok}
use open_vault.Healing.{
  HealingConfig, HealingResult, is_all_healthy, scan, scan_entries, scan_entry, check_file,
  count_file, heal, heal_from_sources, heal_with, heal_checks, heal_file, try_sources, write_healed,
  verify_healed, limit_reached, record_attempt,
}
use open_vault.Healing.Repair.{heal-healthy, heal_from_sources-healthy}
use open_vault.Examples.Memory.{Memory, memory, memory-StorageLaws, empty}
use open_vault.Examples.Digest.{digest}

abbrev entries : List FileEntry
entries =
    record { path = "a"; size = 1; mtime = 0; checksum = digest (1 ∷ []) }
    ∷ record { path = "b"; size = 1; mtime = 0; checksum = digest (2 ∷ []) }
    ∷ []

abbrev snapshot : Snapshot
snapshot = record {
  id = "snap";
  created_at = 0;
  strategy = full;
  source = "/data";
  storage_backend = "local";
  entries = entries;
  parent_id = none;
  total_size = 2;
}

abbrev with_files : String → Bytes → Bytes → Memory
with_files name a b =
    (memory.store_file (memory.store_file (empty name) "snap" "a" a).1 "snap" "b" b).1

-- One corrupt file, and a whole copy.
abbrev target : Memory
target = with_files "local" (1 ∷ []) (9 ∷ [])

abbrev source : Memory
source = with_files "s3" (1 ∷ []) (2 ∷ [])

abbrev config : HealingConfig
config = record {
  enabled = true;
  check_interval_hours = 24;
  max_heals_per_run = 0;
  verify_after_heal = true;
}

abbrev expected : String → String
expected path = if path == "a" then digest (1 ∷ []) else digest (2 ∷ [])

abbrev result : Option String → HealingResult
result from = record {
  snapshot_id = "snap";
  files_healed = 1;
  files_failed = 0;
  recovery_source = from;
  file_results = record { path = "b"; success = true; error = none } ∷ [];
}

healed_one : (heal digest memory target source snapshot config).0 ≡ ok (result (some "s3"))
unfolding heal heal_with heal_checks heal_file write_healed verify_healed limit_reached scan
    scan_entries scan_entry check_file count_file is_all_healthy record_attempt
healed_one = refl

heal-healthy_example :
    is_all_healthy
      (scan digest memory (heal digest memory target source snapshot config).1 snapshot)
    ≡ true
heal-healthy_example =
    heal-healthy digest memory memory-StorageLaws snapshot config expected (omega arith) refl
      (refl, (refl, tt)) target source (result (some "s3")) healed_one refl

healed_by_second :
    (heal_from_sources digest memory target (empty "r2" ∷ source ∷ []) snapshot config).0
    ≡ ok (result (some "s3"))
unfolding heal_from_sources try_sources heal_with heal_checks heal_file write_healed verify_healed
    limit_reached scan scan_entries scan_entry check_file count_file is_all_healthy record_attempt
healed_by_second = refl

heal_from_sources-healthy_example :
    is_all_healthy (
      scan digest memory
        (heal_from_sources digest memory target (empty "r2" ∷ source ∷ []) snapshot config).1
        snapshot)
    ≡ true
heal_from_sources-healthy_example =
    heal_from_sources-healthy digest memory memory-StorageLaws snapshot config expected
      (omega arith) refl (refl, (refl, tt)) target (empty "r2" ∷ source ∷ []) (result (some "s3"))
      healed_by_second refl
