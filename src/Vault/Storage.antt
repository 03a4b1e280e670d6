-- ===== src/Vault/Storage.antt =====
-- crates/openvault-core/src/storage.rs: the trait `VaultStorage` and what a backend promises.
-- A `&dyn VaultStorage` is a value of one type `S` of states, whatever backend it belongs to; a
-- method that writes returns the new state, with an error too.
use open_vault.Common.{
  ℕ, ◌%◌, ◌^◌, String, ◌≡◌, ◌≢◌, Bool, Option, List, length, filter, ◌==◌, string_eq,
}
use open_vault.Vault.Texts.{Bytes}
use open_vault.Vault.Error.{VaultResult, ok, ◌>>=◌, is_ok}
use open_vault.Vault.Snapshots.{Snapshot}

pub record VaultStorage (S : Type 0) : Type 0 where
  pub store_file : S → String → String → Bytes → VaultResult (Unit {0}) × S
  pub retrieve_file : S → String → String → VaultResult Bytes
  pub store_snapshot : S → Snapshot → VaultResult (Unit {0}) × S
  pub load_snapshot : S → String → VaultResult Snapshot
  pub list_snapshots : S → VaultResult (List Snapshot)
  pub delete_snapshot : S → String → VaultResult (Unit {0}) × S
  pub latest_snapshot : S → String → VaultResult (Option Snapshot)
  pub latest_full_snapshot : S → String → VaultResult (Option Snapshot)
  pub backend_name : S → String

-- What the clients rely on of a backend.
pub record StorageLaws {S : Type 0} (ops : VaultStorage S) : Type 0 where
  -- A write that succeeds is read back.
  pub retrieve-store_self :
      (s : S) (id path : String) (bytes : Bytes)
      → (ops.store_file s id path bytes).0 ≡ ok tt
      → ops.retrieve_file (ops.store_file s id path bytes).1 id path ≡ ok bytes
  -- No write, failed ones included, changes what is read at another path of the snapshot, or at
  -- the same path of another snapshot.
  pub retrieve-store_path :
      (s : S) (id path : String) (bytes : Bytes) (path' : String)
      → path ≢ path'
      → ops.retrieve_file (ops.store_file s id path bytes).1 id path' ≡ ops.retrieve_file s id path'
  pub retrieve-store_id :
      (s : S) (id path : String) (bytes : Bytes) (id' : String)
      → id ≢ id'
      → ops.retrieve_file (ops.store_file s id path bytes).1 id' path ≡ ops.retrieve_file s id' path
  -- Writing files leaves the snapshots alone, and the other way round.
  pub latest-store_file :
      (s : S) (id path : String) (bytes : Bytes) (from : String)
      → ops.latest_snapshot (ops.store_file s id path bytes).1 from ≡ ops.latest_snapshot s from
  pub load-store_file :
      (s : S) (id path : String) (bytes : Bytes) (id' : String)
      → ops.load_snapshot (ops.store_file s id path bytes).1 id' ≡ ops.load_snapshot s id'
  pub retrieve-store_snapshot :
      (s : S) (snap : Snapshot) (id path : String)
      → ops.retrieve_file (ops.store_snapshot s snap).1 id path ≡ ops.retrieve_file s id path
  -- A snapshot that was stored is loaded back.
  pub load-store_snapshot :
      (s : S) (snap : Snapshot)
      → (ops.store_snapshot s snap).0 ≡ ok tt
      → ops.load_snapshot (ops.store_snapshot s snap).1 snap.id ≡ ok snap

module _ {S : Type 0} (ops : VaultStorage S) where
  -- The default method: any error means that the file is not there.
  pub file_exists : S → String → String → VaultResult Bool
  file_exists s id path = ok (is_ok (ops.retrieve_file s id path))

  pub snapshot_count : S → String → VaultResult ℕ
  snapshot_count s from = do
    snapshots ← ops.list_snapshots s
    ok (length (filter (λ x. x.source == from) snapshots) % 2 ^ 32)
