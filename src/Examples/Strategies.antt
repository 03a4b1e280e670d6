-- ===== src/Examples/Strategies.antt =====
-- A full backup of one file and the chain that an incremental backup follows.
use open_vault.Common.{◌≡◌, ◌⊎◌, false, refl, ℕ, Option, none, some, String, [], ◌∷◌, arith, All}
use open_vault.Common.Map
use open_vault.Common.Map.{Map}
use open_vault.Vault.{Snapshot, FileEntry, full, incremental, ok}
use open_vault.Vault.Snapshots
use open_vault.Vault.Snapshots.{add_entry}
use open_vault.Strategy.{
  BackupConfig, World, execute, incremental_backup, backup_files, fresh, previous_files, is_changed,
  differs,
}
use open_vault.Strategy.Source.{SourceFile, directory, cons, nil, file, collect_files, walk_dir}
use open_vault.Strategy.Stored.{Backed}
use open_vault.Strategy.Executed.{baseline, execute-Backed}
use open_vault.Strategy.Chain.{oldest, previous_files-oldest}
use open_vault.Examples.Memory.{Memory, memory, memory-StorageLaws, empty}
use open_vault.Examples.Digest.{digest}

abbrev print : ℕ → ℕ → String
print t n = "snap"

abbrev config : BackupConfig
config = record { source = "/data"; exclude = [] }

abbrev bare_file : SourceFile
bare_file = record { rel = "a"; size = 1; mtime = 5; contents = ok (7 ∷ []) }

abbrev world : World
world = record { now = 3; counter = 0; tree = directory "" (cons (file "a" 1 5 (ok (7 ∷ []))) nil) }

collected : collect_files world.tree config.exclude ≡ ok (bare_file ∷ [])
unfolding collect_files walk_dir
collected = refl

abbrev start : Memory
start = empty "local"

abbrev out : Snapshot
out =
    add_entry (fresh digest memory print config incremental world start none)
      (record { path = "a"; size = 1; mtime = 5; checksum = digest (7 ∷ []) })

abbrev filled : Memory
filled = (memory.store_snapshot (memory.store_file start "snap" "a" (7 ∷ [])).1 out).1

succeeded : execute digest memory print config incremental 1 world start ≡ some (ok out, filled)
unfolding execute incremental_backup backup_files collect_files walk_dir is_changed Map.get
    Snapshots.new
succeeded = refl

execute-Backed_example :
    (previous : Map FileEntry) × (baseline digest memory memory-StorageLaws print config incremental
        1 start
      ≡ some (ok previous))
    × All
        (λ (f : SourceFile).
          (is_changed previous f ≡ false) ⊎ Backed digest memory out.id f out filled)
        (bare_file ∷ [])
    × (memory.load_snapshot filled out.id ≡ ok out)
execute-Backed_example =
    execute-Backed digest memory memory-StorageLaws print config incremental 1 world start
      (bare_file ∷ []) out filled collected (tt, tt) succeeded

abbrev entry : ℕ → ℕ → FileEntry
entry size mtime = record { path = "a"; size = size; mtime = mtime; checksum = "" }

abbrev snapshot : String → Option String → ℕ → ℕ → Snapshot
snapshot id parent size mtime = record {
  id = id;
  created_at = 0;
  strategy = full;
  source = "/data";
  storage_backend = "local";
  entries = entry size mtime ∷ [];
  parent_id = parent;
  total_size = size;
}

-- The file had one byte at time 1, and then two at time 2.
abbrev first : Snapshot
first = snapshot "first" none 1 1

abbrev second : Snapshot
second = snapshot "second" (some "first") 2 2

abbrev two : Memory
two = (memory.store_snapshot start first).1

previous_files-oldest_example :
    (previous : Map FileEntry) × (previous_files digest memory print config 2 two (some second)
      ≡ some (ok previous))
    × ((f : SourceFile) → is_changed previous f ≡ differs (oldest f.rel (second ∷ first ∷ [])) f)
previous_files-oldest_example =
    previous_files-oldest digest memory two print config 2 second (first ∷ []) (omega arith)
      ("first", refl, refl, refl)
