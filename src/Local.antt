-- ===== src/Local.antt =====
-- crates/openvault-storage/src/local.rs: a backend in a directory of the file system. The JSON
-- coding of a snapshot (crate serde_json) is a parameter. Each access to the file system goes to
-- the file that its path names (`real`, of Local/Paths.antt): the root is an absolute path, and no
-- link is followed. Error messages have the paths as they are joined.
pub mod Paths
pub mod Plain
pub mod Places
pub mod Laws
use open_vault.Common.{
  ℕ, String, Bool, true, false, not, ◌&&◌, ◌||◌, Option, none, some, List, [], ◌∷◌, ◌++◌, map,
  filter, concat, find, if◌then◌else◌, ◌==◌, string_eq, contains_text,
}
use open_vault.Common.Sort.{greatest_first, max_by_key}
use open_vault.Vault.{
  text, Message, Bytes, Time, VaultError, VaultResult, ok, err, ◌>>=◌, ◌>>◌, map_err, display,
  VaultStorage, Snapshot, FileEntry, full,
}
use open_vault.Vault.Snapshots.{strategy_eq}
use open_vault.Local.Paths.{path_join, real}
use open_vault.Fs.{
  Fs, parent, read, write, exists, dir_exists, create_dir_all, extension, read_dir, remove_file,
  remove_dir_all,
}

pub record LocalVaultStorage : Type 0 where
  pub root : String
  pub fs : Fs

-- `to_string_pretty`, `from_str`, and whether bytes are UTF-8, which `read_to_string` wants.
pub record SnapshotCodec : Type 0 where
  pub to_string_pretty : Snapshot → VaultResult Bytes
  pub from_str : Bytes → VaultResult Snapshot
  pub is_utf8 : Bytes → Bool

abbrev storage_failed : Message → VaultError → VaultError
storage_failed m e = VaultError.storage (m ++ text ": " ∷ display e)

abbrev failed_at : String → String → VaultError → VaultError
failed_at what path = storage_failed (text what ∷ text path ∷ [])

unfoldable pub new : Fs → String → VaultResult LocalVaultStorage
new fs root = do
  map_err (failed_at "Failed to create storage root " root) (create_dir_all fs (real root))
  map_err (storage_failed (text "Failed to create snapshots dir" ∷ []))
      (create_dir_all fs (real (path_join root "snapshots")))
  map_err (storage_failed (text "Failed to create data dir" ∷ []))
      (create_dir_all fs (real (path_join root "data")))
  ok (record { root = root; fs = fs })

unfoldable pub snapshot_path : String → String → String
snapshot_path root id = path_join (path_join root "snapshots") (concat id ".json")

unfoldable pub data_dir : String → String → String
data_dir root id = path_join (path_join root "data") id

-- The `?` of an operation behind which the file system is written.
abbrev on_disk :
    LocalVaultStorage → VaultResult (Unit {0}) × Fs → VaultResult (Unit {0}) × LocalVaultStorage
on_disk s r = (r.0, record s { fs = r.1 })

abbrev written :
    (VaultError → VaultError) → VaultResult (Unit {0}) × Fs → VaultResult (Unit {0}) × Fs
written f r = (map_err f r.0, r.1)

abbrev after :
    VaultResult (Unit {0}) → Fs → VaultResult (Unit {0}) × Fs → VaultResult (Unit {0}) × Fs
after (ok _) fs r = r
after (err e) fs r = (err e, fs)

unfoldable pub ensure_parent :
    (String → VaultError → VaultError) → Fs → String → VaultResult (Unit {0})
ensure_parent f fs path = elim (parent path) [
  | none ↦ ok tt
  | some dir ↦ map_err (f dir) (create_dir_all fs (real dir))
]

unfoldable pub store_file :
    LocalVaultStorage → String → String → Bytes → VaultResult (Unit {0}) × LocalVaultStorage
store_file s id path bytes =
    let file_path = path_join (data_dir s.root id) path in
    on_disk s (
      after (ensure_parent (failed_at "Failed to create directory ") s.fs file_path) s.fs
        (written (failed_at "Failed to write file " file_path) (write s.fs (real file_path) bytes)))

unfoldable pub retrieve_file : LocalVaultStorage → String → String → VaultResult Bytes
retrieve_file s id path =
    let file_path = path_join (data_dir s.root id) path in
    map_err (failed_at "Failed to read file " file_path) (read s.fs (real file_path))

abbrev not_text : VaultError
not_text = VaultError.io (text "stream did not contain valid UTF-8" ∷ [])

abbrev pub is_json : String → Bool
is_json path = elim (extension path) [ none ↦ false | some e ↦ e == "json" ]

module _ (json : SnapshotCodec) where
  unfoldable pub read_to_string : Fs → String → VaultResult Bytes
  read_to_string fs path = do
    bytes ← read fs path
    if json.is_utf8 bytes then ok bytes else err not_text

  unfoldable pub store_snapshot :
      LocalVaultStorage → Snapshot → VaultResult (Unit {0}) × LocalVaultStorage
  store_snapshot s snapshot =
      let path = snapshot_path s.root snapshot.id in
      elim (json.to_string_pretty snapshot) [
        | err e ↦ (err (storage_failed (text "Failed to serialize snapshot" ∷ []) e), s)
        | ok bytes ↦
            on_disk s
              (written (failed_at "Failed to write snapshot " path) (write s.fs (real path) bytes))
      ]

  unfoldable pub load_snapshot : LocalVaultStorage → String → VaultResult Snapshot
  unfolding read_to_string
  load_snapshot s id =
      let path = snapshot_path s.root id in
      if not (exists s.fs (real path)) then err (VaultError.snapshot_not_found id) else (do
        bytes ←
            map_err (failed_at "Failed to read snapshot " path) (read_to_string s.fs (real path))
        map_err (failed_at "Failed to parse snapshot " id) (json.from_str bytes))

  -- The loop over the files of the directory: a text that is no snapshot is passed over, an
  -- unreadable file ends it.
  unfoldable pub parse_all : Fs → List (String × Bytes) → VaultResult (List Snapshot)
  unfolding read_to_string
  parse_all fs [] = ok []
  parse_all fs ((path, _) ∷ rest) = elim (read_to_string fs path) [
    | err e ↦ err e
    | ok bytes ↦ elim (json.from_str bytes) [
      | err e ↦ parse_all fs rest
      | ok snapshot ↦ parse_all fs rest >>= λ more. ok (snapshot ∷ more)
    ]
  ]

  unfoldable pub list_snapshots : LocalVaultStorage → VaultResult (List Snapshot)
  unfolding parse_all
  list_snapshots s =
      let dir = real (path_join s.root "snapshots") in
      do
        found ← read_dir s.fs dir
        snapshots ← parse_all s.fs (filter (λ (f : String × Bytes). is_json f.0) found)
        ok (greatest_first (λ (x : Snapshot). x.created_at) snapshots)

  -- The data directory behind the metadata that were removed.
  abbrev remove_data :
      LocalVaultStorage → String → VaultResult (Unit {0}) × Fs → VaultResult (Unit {0}) × Fs
  remove_data s id (err e, fs) = (err e, fs)
  remove_data s id (ok _, fs) =
      if dir_exists fs (real (data_dir s.root id))
      then remove_dir_all fs (real (data_dir s.root id))
      else (ok tt, fs)

  unfoldable pub delete_snapshot :
      LocalVaultStorage → String → VaultResult (Unit {0}) × LocalVaultStorage
  delete_snapshot s id =
      let path = snapshot_path s.root id in
      if not (exists s.fs (real path))
      then (err (VaultError.snapshot_not_found id), s)
      else on_disk s (remove_data s id (remove_file s.fs (real path)))

  -- The last of the newest snapshots that pass the test.
  unfoldable pub latest_where :
      (Snapshot → Bool) → LocalVaultStorage → VaultResult (Option Snapshot)
  unfolding list_snapshots
  latest_where test s = do
    snapshots ← list_snapshots s
    ok (max_by_key (λ (x : Snapshot). x.created_at) (filter test snapshots))

  unfoldable pub latest_snapshot : LocalVaultStorage → String → VaultResult (Option Snapshot)
  latest_snapshot s source = latest_where (λ (x : Snapshot). x.source == source) s

  unfoldable pub latest_full_snapshot : LocalVaultStorage → String → VaultResult (Option Snapshot)
  latest_full_snapshot s source =
      latest_where (λ (x : Snapshot). x.source == source && x.strategy == full) s

  -- The backend as a `VaultStorage`.
  abbrev pub local : VaultStorage LocalVaultStorage
  local = record {
    store_file = store_file;
    retrieve_file = retrieve_file;
    store_snapshot = store_snapshot;
    load_snapshot = load_snapshot;
    list_snapshots = list_snapshots;
    delete_snapshot = delete_snapshot;
    latest_snapshot = latest_snapshot;
    latest_full_snapshot = latest_full_snapshot;
    backend_name = λ s. "local";
  }

  -- The override of the trait's default.
  pub file_exists : LocalVaultStorage → String → String → VaultResult Bool
  file_exists s id path =
      let file_path = path_join (data_dir s.root id) path in
      ok (exists s.fs (real file_path) || dir_exists s.fs (real file_path))

-- The loop of `restore_snapshot`, which writes into the same file system.
unfoldable pub restore_entries :
    LocalVaultStorage
    → String
    → List FileEntry
    → String
    → VaultResult (Unit {0}) × LocalVaultStorage
restore_entries s id [] target = (ok tt, s)
restore_entries s id (entry ∷ rest) target = elim (retrieve_file s id entry.path) [
  | err e ↦ (err e, s)
  | ok bytes ↦
      let file_path = path_join target entry.path in
      let (done, s') = on_disk s (
        after (ensure_parent (λ _ e. e) s.fs file_path) s.fs (
          written
            (λ e.
              VaultError.restore_failed
                (text "Failed to restore file " ∷ text file_path ∷ text ": " ∷ display e))
            (write s.fs (real file_path) bytes))) in
      elim done [ ok _ ↦ restore_entries s' id rest target | err e ↦ (err e, s') ]
]

pub restore_snapshot :
    LocalVaultStorage → Snapshot → String → VaultResult (Unit {0}) × LocalVaultStorage
unfolding restore_entries
restore_snapshot s snapshot target = elim (create_dir_all s.fs (real target)) [
  | err e ↦ (
    err (
        VaultError.restore_failed
          (text "Failed to create target directory " ∷ text target ∷ text ": " ∷ display e)),
    s,
  )
  | ok _ ↦ restore_entries s snapshot.id snapshot.entries target
]
