-- ===== src/Healing.antt =====
-- crates/openvault-core/src/healing.rs: scanning a snapshot for corrupt files, and healing them
-- from other storages. `Checksum::compute` with SHA-256 is a parameter. Counters are u32.
mod Results
pub mod Scan
pub mod Attempts
pub mod Loop
pub mod Repair
pub mod Supply
use open_vault.Common.{
  ℕ, ◌+◌, ◌%◌, ◌^◌, String, Bool, true, false, not, ◌&&◌, Option, none, some, List, [], ◌∷◌, ◌++◌,
  if◌then◌else◌, ltb, leb, nat_beq, ◌==◌, string_eq,
}
use open_vault.Vault.{
  text, number, Message, Bytes, VaultError, VaultResult, ok, err, display, VaultStorage, Snapshot,
  FileEntry,
}
unfoldable pub use Results.*

module _ {S : Type 0} where
  -- The loop of `heal` and of `heal_from_sources` over the checks of the scan.
  unfoldable pub heal_checks :
      (FileCheckResult → S → Attempt × S)
      → HealingConfig
      → ℕ
      → HealingResult
      → List FileCheckResult
      → S
      → HealingResult × S
  unfolding limit_reached
  heal_checks attempt config heals result [] target = (result, target)
  heal_checks attempt config heals result (check ∷ rest) target = elim check.healthy [
    | true ↦ heal_checks attempt config heals result rest target
    | false ↦ elim (limit_reached config heals) [
      | true ↦ (result, target)
      | false ↦
          let (outcome, target') = attempt check target in
          heal_checks attempt config (heals_after outcome heals)
            (record_attempt check.path outcome result) rest target'
    ]
  ]

module _ (sha256 : Bytes → String) {S : Type 0} (ops : VaultStorage S) where
  -- What a round of the loop of `scan` pushes, and what it counts.
  unfoldable pub check_file : VaultResult Bytes → FileEntry → FileCheckResult
  check_file (ok bytes) entry =
      if sha256 bytes == entry.checksum
      then record {
        path = entry.path;
        healthy = true;
        expected_checksum = entry.checksum;
        actual_checksum = some (sha256 bytes);
        error = none;
      }
      else record {
        path = entry.path;
        healthy = false;
        expected_checksum = entry.checksum;
        actual_checksum = some (sha256 bytes);
        error = some (
            text "Checksum mismatch: expected "
            ∷ text entry.checksum
            ∷ text ", got "
            ∷ text (sha256 bytes)
            ∷ []);
      }
  check_file (err e) entry = record {
    path = entry.path;
    healthy = false;
    expected_checksum = entry.checksum;
    actual_checksum = none;
    error = some (text "File missing or unreadable: " ∷ display e);
  }

  unfoldable pub count_file : VaultResult Bytes → FileEntry → ScanResult → ScanResult
  count_file (ok bytes) entry r =
      if sha256 bytes == entry.checksum
      then record r { files_healthy = inc r.files_healthy }
      else record r { files_corrupt = inc r.files_corrupt }
  count_file (err e) entry r = record r { files_missing = inc r.files_missing }

  unfoldable pub scan_entry : S → String → FileEntry → ScanResult → ScanResult
  unfolding check_file count_file
  scan_entry storage id entry r =
      let found = ops.retrieve_file storage id entry.path in
      let r' = count_file found entry r in
      record r' {
        files_scanned = inc r.files_scanned;
        checks = r.checks ++ check_file found entry ∷ [];
      }

  unfoldable pub scan_entries : S → String → List FileEntry → ScanResult → ScanResult
  scan_entries storage id [] r = r
  scan_entries storage id (entry ∷ rest) r =
      scan_entries storage id rest (scan_entry storage id entry r)

  abbrev pub no_checks : String → ScanResult
  no_checks id = record {
    snapshot_id = id;
    files_scanned = 0;
    files_healthy = 0;
    files_corrupt = 0;
    files_missing = 0;
    checks = [];
  }

  unfoldable pub scan : S → Snapshot → ScanResult
  unfolding scan_entries
  scan storage snapshot = scan_entries storage snapshot.id snapshot.entries (no_checks snapshot.id)

  -- The check behind a write that succeeded.
  unfoldable pub verify_healed : HealingConfig → String → FileCheckResult → S → Option Message
  verify_healed config id check target =
      if config.verify_after_heal
      then elim (ops.retrieve_file target id check.path) [
        | ok recovered ↦
            if sha256 recovered == check.expected_checksum
            then none
            else some (text "Post-heal verification failed" ∷ [])
        | err e ↦ some (text "Post-heal read failed: " ∷ display e)
      ]
      else none

  abbrev pub outcome : Option String → Option Message → Attempt
  outcome source none = healed source
  outcome source (some why) = failed why

  unfoldable pub write_healed :
      HealingConfig → String → Option String → FileCheckResult → Bytes → S → Attempt × S
  unfolding verify_healed
  write_healed config id source check bytes target =
      let (done, target') = ops.store_file target id check.path bytes in
      elim done [
        | ok _ ↦ (outcome source (verify_healed config id check target'), target')
        | err e ↦ (failed (text "Failed to write healed data: " ∷ display e), target')
      ]

  -- What is tried for one check with one source.
  unfoldable pub heal_file :
      HealingConfig → String → Option String → S → FileCheckResult → S → Attempt × S
  unfolding write_healed
  heal_file config id source from check target = elim (ops.retrieve_file from id check.path) [
    | ok bytes ↦
        if sha256 bytes == check.expected_checksum
        then write_healed config id source check bytes target
        else (
          failed (
              text "Source data also corrupt: expected "
              ∷ text check.expected_checksum
              ∷ text ", got "
              ∷ text (sha256 bytes)
              ∷ []),
          target,
        )
    | err e ↦ (failed (text "Source data unavailable: " ∷ display e), target)
  ]

  -- The inner loop of `heal_from_sources`: whatever fails with one source, the next one is tried.
  unfoldable pub try_sources : HealingConfig → String → List S → FileCheckResult → S → Attempt × S
  try_sources config id [] check target = (failed (text "No healthy source available" ∷ []), target)
  try_sources config id (from ∷ rest) check target =
      let (first, target') = heal_file config id (some (ops.backend_name from)) from check target in
      elim first [
        | healed source ↦ (healed source, target')
        | failed why ↦ try_sources config id rest check target'
      ]

  abbrev pub no_heals : String → Option String → HealingResult
  no_heals id source = record {
    snapshot_id = id;
    files_healed = 0;
    files_failed = 0;
    recovery_source = source;
    file_results = [];
  }

  -- Both functions: nothing is done where the scan finds nothing.
  unfoldable pub heal_with :
      (FileCheckResult → S → Attempt × S)
      → Option String
      → Snapshot
      → HealingConfig
      → S
      → HealingResult × S
  unfolding heal_checks scan
  heal_with attempt source snapshot config target =
      let found = scan target snapshot in
      if is_all_healthy found
      then (no_heals snapshot.id source, target)
      else heal_checks attempt config 0 (no_heals snapshot.id source) found.checks target

  unfoldable pub heal : S → S → Snapshot → HealingConfig → VaultResult HealingResult × S
  unfolding heal_with heal_file
  heal target from snapshot config =
      let (result, target') =
        heal_with (heal_file config snapshot.id none from) (some (ops.backend_name from)) snapshot
          config target in
      (ok result, target')

  unfoldable pub heal_from_sources :
      S → List S → Snapshot → HealingConfig → VaultResult HealingResult × S
  unfolding heal_with try_sources
  heal_from_sources target sources snapshot config =
      let (result, target') =
        heal_with (try_sources config snapshot.id sources) none snapshot config target in
      (ok result, target')

  scan_snapshots : S → List Snapshot → List ScanResult
  scan_snapshots storage [] = []
  scan_snapshots storage (snapshot ∷ rest) = scan storage snapshot ∷ scan_snapshots storage rest

  pub scan_all : S → VaultResult (List ScanResult)
  unfolding scan_snapshots
  scan_all storage = elim (ops.list_snapshots storage) [
    | ok snapshots ↦ ok (scan_snapshots storage snapshots)
    | err e ↦ err e
  ]
