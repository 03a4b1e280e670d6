-- ===== src/Replicator/Retry.antt =====
-- Replication to a backend on which an earlier one has failed.
use open_vault.Common.{
  ◌≡◌, refl, ◌∙◌, inl, inr, String, Bool, true, false, Option, some, List, [], ◌∷◌, arith, concat,
}
use open_vault.Vault.{
  Message, Bytes, VaultError, VaultResult, VaultResult-cases, ok, err, VaultStorage, StorageLaws,
  Snapshot, FileEntry,
}
use open_vault.Replicator.{
  ReplicatorConfig, ReplicationResult, is_full_success, no_backends, succeeded, failed, copy_data,
  replicate_one, replicate_targets, replicate_snapshot,
}

-- The result that a caller sees as a full success.
abbrev pub succeeds : VaultResult ReplicationResult → Bool
succeeds (ok r) = is_full_success r
succeeds (err e) = false

module _ {S : Type 0} (sha256 : Bytes → String) (ops : VaultStorage S) (laws : StorageLaws ops)
    (config : ReplicatorConfig) (snapshot : Snapshot) (from : S) where
  load-copy_data :
      (entries : List FileEntry) (target : S)
      → ops.load_snapshot (copy_data sha256 ops from snapshot.id entries target).1 snapshot.id
        ≡ ops.load_snapshot target snapshot.id
  unfolding copy_data
  load-copy_data [] target = refl
  load-copy_data (entry ∷ rest) target =
      elim (VaultResult-cases (ops.retrieve_file from snapshot.id entry.path)) [
        | inr (x, e) ↦ ground arith
        | inl (bytes, e) ↦
            let law = laws.load-store_file target snapshot.id entry.path bytes snapshot.id in
            let after =
              load-copy_data rest (ops.store_file target snapshot.id entry.path bytes).1 in
            ground (arith, law, after)
      ]

  -- The data behind the metadata that were stored.
  abbrev pub copied : S → Option Message × S
  copied target =
      copy_data sha256 ops from snapshot.id snapshot.entries (ops.store_snapshot target snapshot).1

  replicate_one-existing :
      (r : ReplicationResult) (target : S) (found : Snapshot)
      → ops.load_snapshot target snapshot.id ≡ ok found
      → replicate_one sha256 ops config snapshot from r target
        ≡ (succeeded (concat (ops.backend_name target) " (existing)") r, target)
  unfolding replicate_one
  replicate_one-existing r target found e = rw e refl

  replicate_one-broken :
      (r : ReplicationResult) (target : S) (absent : VaultError) (problem : Message)
      → ops.load_snapshot target snapshot.id ≡ err absent
      → (ops.store_snapshot target snapshot).0 ≡ ok tt
      → (copied target).0 ≡ some problem
      → replicate_one sha256 ops config snapshot from r target ≡ (
        failed (ops.backend_name target) ((ops.backend_name target, problem) ∷ []) r,
        (copied target).1,
      )
  unfolding replicate_one
  replicate_one-broken r target absent problem missing stored broken =
      rw missing (rw stored (rw broken refl))

  -- A replication that stores the metadata on a target that has no snapshot of the id and then
  -- fails at a file reports the failure; the same replication once more reports a full success, and
  -- has written nothing.
  pub replicate_snapshot-again :
      (target : S) (absent : VaultError) (problem : Message)
      → ops.load_snapshot target snapshot.id ≡ err absent
      → (ops.store_snapshot target snapshot).0 ≡ ok tt
      → (copied target).0 ≡ some problem
      → let (report, targets) = replicate_snapshot sha256 ops config snapshot from (target ∷ []) in
        let (report', targets') = replicate_snapshot sha256 ops config snapshot from targets in
        (succeeds report ≡ false) × (succeeds report' ≡ true) × (targets' ≡ targets)
  unfolding replicate_snapshot replicate_targets is_full_success
  replicate_snapshot-again target absent problem missing stored broken =
      let found =
        load-copy_data snapshot.entries (ops.store_snapshot target snapshot).1
        ∙ laws.load-store_snapshot target snapshot stored in
      let r = no_backends snapshot.id in
      rw (replicate_one-broken r target absent problem missing stored broken)
        (rw (replicate_one-existing r (copied target).1 snapshot found) (refl, refl, refl))
