-- ===== src/Examples/Memory.antt =====
-- A storage in memory that keeps the laws of crates/openvault-core/src/storage.rs.
use open_vault.Common.{
  String, refl, ◌&&◌, Option, none, some, List, [], ◌∷◌, arith, ◌==◌, string_eq, if◌then◌else◌,
  find, filter, not, eq_iff,
}
use open_vault.Vault.{
  Bytes, VaultError, VaultResult, ok, err, VaultStorage, StorageLaws, Snapshot, full,
}
use open_vault.Vault.Snapshots.{strategy_eq}

pub record Memory : Type 0 where
  pub name : String
  pub read : String → String → Option Bytes
  pub snapshots : List Snapshot

-- A memory of this name with nothing in it.
abbrev pub empty : String → Memory
empty backend = record { name = backend; read = λ id path. none; snapshots = [] }

abbrev or_missing {ℓ} : {A : Type ℓ} → String → Option A → VaultResult A
or_missing id none = err (VaultError.snapshot_not_found id)
or_missing id (some a) = ok a

abbrev pub memory : VaultStorage Memory
memory = record {
  store_file = λ s id path bytes.
      (ok tt, record s { read = λ i p. if i == id && p == path then some bytes else s.read i p });
  retrieve_file = λ s id path. or_missing id (s.read id path);
  store_snapshot = λ s snap. (ok tt, record s { snapshots = snap ∷ s.snapshots });
  load_snapshot = λ s id. or_missing id (find (λ (x : Snapshot). x.id == id) s.snapshots);
  list_snapshots = λ s. ok s.snapshots;
  delete_snapshot = λ s id.
      (ok tt, record s { snapshots = filter (λ (x : Snapshot). not (x.id == id)) s.snapshots });
  latest_snapshot = λ s from. ok (find (λ (x : Snapshot). x.source == from) s.snapshots);
  latest_full_snapshot =
      λ s from. ok (find (λ (x : Snapshot). x.source == from && x.strategy == full) s.snapshots);
  backend_name = λ s. s.name;
}

pub memory-StorageLaws : StorageLaws memory
memory-StorageLaws = record {
  retrieve-store_self = λ s id path bytes e. ground (arith, eq_iff id id, eq_iff path path);
  retrieve-store_path = λ s id path bytes path' n. ground (arith, eq_iff path' path);
  retrieve-store_id = λ s id path bytes id' n. ground (arith, eq_iff id' id);
  latest-store_file = λ s id path bytes from. refl;
  load-store_file = λ s id path bytes id'. refl;
  retrieve-store_snapshot = λ s snap id path. refl;
  load-store_snapshot = λ s snap e. ground (arith, eq_iff snap.id snap.id);
}
