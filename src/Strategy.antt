-- ===== src/Strategy.antt =====
-- crates/openvault-core/src/strategy.rs: full, incremental and differential backup to any storage.
-- SHA-256, the clock and the printing of a snapshot's id are parameters.
pub mod Source
pub mod Stored
pub mod Chain
pub mod Executed
use open_vault.Common.{
  ℕ, zero, suc, ◌+◌, String, Bool, true, false, not, ◌||◌, Option, none, some, List, [], ◌∷◌,
  if◌then◌else◌, nat_beq,
}
use open_vault.Common.Map
use open_vault.Common.Map.{Map}
use open_vault.Vault.{
  Bytes, Time, VaultError, VaultResult, ok, err, ◌>>=◌, VaultStorage, Snapshot, FileEntry, full,
  incremental, differential,
}
use open_vault.Vault.Snapshots
use open_vault.Vault.Snapshots.{BackupStrategy, add_entry}
use open_vault.Strategy.Source.{Node, SourceFile, collect_files}

-- What is used of the configuration: the source and the patterns.
pub record BackupConfig : Type 0 where
  pub source : String
  pub exclude : List String

-- The clock, the counter of ids, and what the source shows.
pub record World : Type 0 where
  pub now : Time
  pub counter : ℕ
  pub tree : Node

abbrev pub entry_of : (Bytes → String) → SourceFile → Bytes → FileEntry
entry_of sha256 f bytes = record {
  path = f.rel;
  size = f.size;
  mtime = f.mtime;
  checksum = sha256 bytes;
}

-- A file is backed up where the map has no entry of its path with its time and size.
abbrev pub differs : Option FileEntry → SourceFile → Bool
differs none f = true
differs (some existing) f =
    not (nat_beq existing.mtime f.mtime) || not (nat_beq existing.size f.size)

unfoldable pub is_changed : Map FileEntry → SourceFile → Bool
is_changed previous f = differs (Map.get f.rel previous) f

-- The entries of a snapshot inserted under their paths.
unfoldable pub insert_all : List FileEntry → Map FileEntry → Map FileEntry
insert_all [] m = m
insert_all (e ∷ es) m = insert_all es (Map.insert e.path e m)

module _ {S : Type 0} (sha256 : Bytes → String) (ops : VaultStorage S) where
  -- The walk to the parents, on fuel: `none` stands for a walk that goes on.
  unfoldable pub file_map : ℕ → S → Snapshot → Map FileEntry → Option (VaultResult (Map FileEntry))
  unfolding insert_all
  file_map zero s snap m = none
  file_map (suc fuel) s snap m = elim snap.parent_id [
    | none ↦ some (ok (insert_all snap.entries m))
    | some parent ↦ elim (ops.load_snapshot s parent) [
      | err e ↦ some (err e)
      | ok older ↦ file_map fuel s older (insert_all snap.entries m)
    ]
  ]

  -- The loops of the three strategies, which differ in their test.
  unfoldable pub backup_files :
      (SourceFile → Bool) → List SourceFile → Snapshot → S → VaultResult Snapshot × S
  backup_files changed [] snapshot s = (ok snapshot, s)
  backup_files changed (f ∷ rest) snapshot s =
      let skipped = backup_files changed rest snapshot s in
      if not (changed f) then skipped else elim f.contents [
        | err e ↦ (err e, s)
        | ok bytes ↦
            let (done, s') = ops.store_file s snapshot.id f.rel bytes in
            elim done [
              | err e ↦ (err e, s')
              | ok _ ↦ backup_files changed rest (add_entry snapshot (entry_of sha256 f bytes)) s'
            ]
      ]

  abbrev pub after_files : VaultResult Snapshot × S → VaultResult Snapshot × S
  after_files (err e, s) = (err e, s)
  after_files (ok snapshot, s) =
      let (done, s') = ops.store_snapshot s snapshot in
      elim done [ err e ↦ (err e, s') | ok _ ↦ (ok snapshot, s') ]

  abbrev pub after_collect :
      (SourceFile → Bool) → Snapshot → S → VaultResult (List SourceFile) → VaultResult Snapshot × S
  after_collect changed snapshot s (err e) = (err e, s)
  after_collect changed snapshot s (ok files) = after_files (backup_files changed files snapshot s)

  module _ (format_id : Time → ℕ → String) (config : BackupConfig) where
    abbrev pub fresh : BackupStrategy → World → S → Option String → Snapshot
    fresh how w s parent =
        (Snapshots.new format_id w.now w.counter how config.source (ops.backend_name s) parent).0

    unfoldable pub full_backup : World → S → VaultResult Snapshot × S
    unfolding backup_files collect_files
    full_backup w s =
        after_collect (λ _. true) (fresh full w s none) s (collect_files w.tree config.exclude)

    -- What the incremental backup compares with.
    unfoldable pub previous_files : ℕ → S → Option Snapshot → Option (VaultResult (Map FileEntry))
    unfolding file_map
    previous_files fuel s none = some (ok [])
    previous_files fuel s (some parent) = file_map fuel s parent []

    abbrev pub parent_of : Option Snapshot → Option String
    parent_of none = none
    parent_of (some p) = some p.id

    abbrev pub with_map :
        S
        → Snapshot
        → VaultResult (List SourceFile)
        → Option (VaultResult (Map FileEntry))
        → Option (VaultResult Snapshot × S)
    with_map s snapshot (err e) previous = some (err e, s)
    with_map s snapshot (ok files) none = none
    with_map s snapshot (ok files) (some (err e)) = some (err e, s)
    with_map s snapshot (ok files) (some (ok previous)) =
        some (after_files (backup_files (is_changed previous) files snapshot s))

    unfoldable pub incremental_backup : ℕ → World → S → Option (VaultResult Snapshot × S)
    unfolding previous_files backup_files collect_files is_changed
    incremental_backup fuel w s = elim (ops.latest_snapshot s config.source) [
      | err e ↦ some (err e, s)
      | ok parent ↦
          with_map s (fresh incremental w s (parent_of parent))
            (collect_files w.tree config.exclude) (previous_files fuel s parent)
    ]

    abbrev pub base_files : Option Snapshot → Map FileEntry
    base_files none = []
    base_files (some base) = insert_all base.entries []

    unfoldable pub differential_backup : World → S → VaultResult Snapshot × S
    unfolding backup_files collect_files is_changed insert_all
    differential_backup w s = elim (ops.latest_full_snapshot s config.source) [
      | err e ↦ (err e, s)
      | ok base ↦
          after_collect (is_changed (base_files base)) (fresh differential w s (parent_of base)) s
            (collect_files w.tree config.exclude)
    ]

    -- `engine_for_strategy` with `execute`.
    unfoldable pub execute : BackupStrategy → ℕ → World → S → Option (VaultResult Snapshot × S)
    unfolding full_backup incremental_backup differential_backup
    execute full fuel w s = some (full_backup w s)
    execute incremental fuel w s = incremental_backup fuel w s
    execute differential fuel w s = some (differential_backup w s)
