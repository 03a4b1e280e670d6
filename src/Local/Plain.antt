-- ===== src/Local/Plain.antt =====
-- The ids and relative paths with which the backend of crates/openvault-storage/src/local.rs keeps
-- its files apart.
use open_vault.Common.{◌≡◌, ◌≢◌, String, true, false, concat, contains_text}
use open_vault.Vault.{Bytes, VaultStorage, Snapshot, ok}
use open_vault.Local.Paths.{plain_from}

-- No component is empty, `.` or `..`; the path is not absolute.
abbrev pub PlainPath : String → Type 0
PlainPath path = plain_from "" path ≡ true

-- One plain component, as the name of a directory and of a file of metadata.
pub record PlainName (id : String) : Type 0 where
  pub directory : PlainPath id
  pub metadata : PlainPath (concat id ".json")
  pub single : contains_text id "/" ≡ false

-- The laws of a storage, for ids that are plain names and for plain paths.
pub record PlainLaws {S : Type 0} (ops : VaultStorage S) : Type 0 where
  pub retrieve-store_self :
      (s : S) (id path : String) (bytes : Bytes)
      → PlainName id
      → PlainPath path
      → (ops.store_file s id path bytes).0 ≡ ok tt
      → ops.retrieve_file (ops.store_file s id path bytes).1 id path ≡ ok bytes
  pub retrieve-store_path :
      (s : S) (id path : String) (bytes : Bytes) (path' : String)
      → PlainName id
      → PlainPath path
      → PlainPath path'
      → path ≢ path'
      → ops.retrieve_file (ops.store_file s id path bytes).1 id path' ≡ ops.retrieve_file s id path'
  pub retrieve-store_id :
      (s : S) (id path : String) (bytes : Bytes) (id' : String)
      → PlainName id
      → PlainName id'
      → PlainPath path
      → id ≢ id'
      → ops.retrieve_file (ops.store_file s id path bytes).1 id' path ≡ ops.retrieve_file s id' path
  pub latest-store_file :
      (s : S) (id path : String) (bytes : Bytes) (from : String)
      → PlainName id
      → PlainPath path
      → ops.latest_snapshot (ops.store_file s id path bytes).1 from ≡ ops.latest_snapshot s from
  pub load-store_file :
      (s : S) (id path : String) (bytes : Bytes) (id' : String)
      → PlainName id
      → PlainPath path
      → PlainName id'
      → ops.load_snapshot (ops.store_file s id path bytes).1 id' ≡ ops.load_snapshot s id'
  pub retrieve-store_snapshot :
      (s : S) (snap : Snapshot) (id path : String)
      → PlainName snap.id
      → PlainName id
      → PlainPath path
      → ops.retrieve_file (ops.store_snapshot s snap).1 id path ≡ ops.retrieve_file s id path
  pub load-store_snapshot :
      (s : S) (snap : Snapshot)
      → PlainName snap.id
      → (ops.store_snapshot s snap).0 ≡ ok tt
      → ops.load_snapshot (ops.store_snapshot s snap).1 snap.id ≡ ok snap
