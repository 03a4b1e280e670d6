-- ===== src/Examples/Restores.antt =====
-- Restoring from a storage in memory.
use open_vault.Common.{
  ◌≡◌, ◌+◌, refl, map, Bool, ℕ, Option, none, String, true, [], ◌∷◌, arith, length,
}
use open_vault.Common.Map
use open_vault.Vault.{Snapshot, FileEntry, BackupEntry, full, ok}
use open_vault.Fs.{Fs, read, exists, create_dir_all}
use open_vault.RestoreEngine.{
  RestoreEngine, RestoreOptions, RestoreReport, to, skip, no_files, restore,
}
use open_vault.RestoreEngine.Kept.{restore-kept}
use open_vault.RestoreEngine.Counts.{attempts, succeeded, failed_paths, error_paths, restore-counts}
use open_vault.RestoreEngine.Versions.{find_latest_version-Newest, find_latest_version, Newest}
use open_vault.Examples.Memory.{Memory, memory, empty}
use open_vault.Examples.Digest.{digest}

abbrev entry : FileEntry
entry = record { path = "a"; size = 1; mtime = 0; checksum = digest (1 ∷ []) }

abbrev snapshot : Snapshot
snapshot = record {
  id = "snap";
  created_at = 7;
  strategy = full;
  source = "/data";
  storage_backend = "local";
  entries = entry ∷ [];
  parent_id = none;
  total_size = 1;
}

abbrev stored : Memory
stored =
    (memory.store_file (memory.store_snapshot (empty "local") snapshot).1 "snap" "a" (1 ∷ [])).1

abbrev engine : RestoreEngine Memory
engine = record { storage = memory; crypto = none }

abbrev digits : ℕ → String
digits n = "1"

-- A file is there already.
abbrev disk : Fs
disk = record { files = ("/out/a", 9 ∷ []) ∷ []; refuses = λ path. none }

abbrev careful : RestoreOptions
careful = record (to "/out") { conflict = skip }

there : exists disk "/out/a" ≡ true
unfolding exists Map.contains_key Map.get
there = refl

restore-kept_example :
    let fs' = (restore digits digest engine stored snapshot careful disk).1 in
    (exists fs' "/out/a" ≡ true) × (read fs' "/out/a" ≡ read disk "/out/a")
restore-kept_example =
    restore-kept digits digest engine stored snapshot careful disk "/out/a" refl there

made : create_dir_all disk "/out" ≡ ok tt
unfolding create_dir_all
made = refl

restore-counts_example :
    let tries = attempts digits digest engine stored "snap" careful (entry ∷ []) (no_files, disk) in
    (r : RestoreReport) × ((restore digits digest engine stored snapshot careful disk).0 ≡ ok r)
    × (map (λ (a : FileEntry × Bool). a.0) tries ≡ entry ∷ [])
    × (r.files_restored ≡ length (succeeded digits digest engine tries))
    × (error_paths digits digest engine r ≡ failed_paths digits digest engine tries)
    × (r.files_restored + length r.errors ≡ 1)
restore-counts_example =
    restore-counts digits digest engine stored snapshot careful disk (omega arith) made

abbrev report : RestoreReport
report = record {
  files_restored = 1;
  files_skipped = 0;
  checksum_failures = 0;
  errors = [];
  bytes_restored = 1;
  files_renamed = 0;
}

find_latest_version-Newest_example :
    (latest : Option BackupEntry) × (find_latest_version memory stored "a" ≡ ok latest)
    × Newest "a" (snapshot ∷ []) latest
find_latest_version-Newest_example =
    find_latest_version-Newest memory stored "a" (snapshot ∷ []) refl
