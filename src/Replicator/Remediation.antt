-- ===== src/Replicator/Remediation.antt =====
-- crates/openvault-core/src/replicator.rs, `auto_remediate`: the latest snapshot of the source is
-- copied to the targets that have none.
use open_vault.Common.{
  ℕ, ◌+◌, ◌%◌, ◌^◌, ◌≡◌, ◌∙◌, refl, inl, inr, String, Bool, true, false, none, some, List, [], ◌∷◌,
  arith, if◌then◌else◌, All,
}
use open_vault.Vault.{
  text, VaultError, VaultResult, ok, err, is_ok, VaultResult-cases, VaultStorage, Snapshot,
  FileEntry,
}
use open_vault.Policy.{PolicyHealth, check_health, holds}
use open_vault.Replicator.{ReplicatorConfig}

module _ {S : Type 0} (ops : VaultStorage S) where
  -- The loop over the entries, with `all_ok`: a file that the source cannot read is passed over.
  unfoldable pub copy_readable : S → String → List FileEntry → S → Bool × S
  copy_readable from id [] target = (true, target)
  copy_readable from id (entry ∷ rest) target = elim (ops.retrieve_file from id entry.path) [
    | err e ↦ copy_readable from id rest target
    | ok bytes ↦
        let (done, target') = ops.store_file target id entry.path bytes in
        elim done [ ok _ ↦ copy_readable from id rest target' | err e ↦ (false, target') ]
  ]

  abbrev pub after_store : S → Snapshot → VaultResult (Unit {0}) × S → Bool × S
  after_store from snapshot (err e, target) = (false, target)
  after_store from snapshot (ok _, target) = copy_readable from snapshot.id snapshot.entries target

  -- One round of the loop over the targets: whether it counts as an action.
  unfoldable pub remediate_one : S → String → Snapshot → S → Bool × S
  remediate_one from source snapshot target =
      if holds ops (ops.latest_snapshot target source)
      then (false, target)
      else after_store from snapshot (ops.store_snapshot target snapshot)

  unfoldable pub remediate_targets : S → String → Snapshot → ℕ → List S → ℕ × List S
  remediate_targets from source snapshot actions [] = (actions, [])
  remediate_targets from source snapshot actions (target ∷ rest) =
      let (acted, target') = remediate_one from source snapshot target in
      let (total, rest') =
        remediate_targets from source snapshot (if acted then (actions + 1) % 2 ^ 32 else actions)
          rest in
      (total, target' ∷ rest')

  abbrev pub counted : ℕ × List S → VaultResult ℕ × List S
  counted r = (ok r.0, r.1)

  unfoldable pub auto_remediate : ReplicatorConfig → String → S → List S → VaultResult ℕ × List S
  unfolding remediate_targets
  auto_remediate config source from targets =
      elim (check_health ops config.policy source (from ∷ targets)) [
        | err e ↦ (err e, targets)
        | ok health ↦
            if health.healthy then (ok 0, targets) else elim (ops.latest_snapshot from source) [
              | err e ↦ (err e, targets)
              | ok none ↦ (
                err (VaultError.policy_violation (text "No snapshot found to remediate" ∷ [])),
                targets,
              )
              | ok (some snapshot) ↦ counted (remediate_targets from source snapshot 0 targets)
            ]
      ]

  -- A target that gets the metadata of the snapshot and no file.
  abbrev pub metadata_only : Snapshot → S → S
  metadata_only snapshot target = (ops.store_snapshot target snapshot).1

  copy_readable-none :
      (from : S) (id : String) (entries : List FileEntry) (target : S)
      → All (λ (entry : FileEntry). is_ok (ops.retrieve_file from id entry.path) ≡ false) entries
      → copy_readable from id entries target ≡ (true, target)
  unfolding copy_readable
  copy_readable-none from id [] target lost = refl
  copy_readable-none from id (entry ∷ rest) target lost =
      elim (VaultResult-cases (ops.retrieve_file from id entry.path)) [
        | inl (bytes, e) ↦ absurd (ground (arith, lost.0))
        | inr (x, e) ↦ ground (arith, copy_readable-none from id rest target lost.1)
      ]

  auto_remediate-step :
      (config : ReplicatorConfig) (source : String) (from : S) (targets : List S)
      (snapshot : Snapshot) (health : PolicyHealth)
      → check_health ops config.policy source (from ∷ targets) ≡ ok health
      → health.healthy ≡ false
      → ops.latest_snapshot from source ≡ ok (some snapshot)
      → auto_remediate config source from targets
        ≡ counted (remediate_targets from source snapshot 0 targets)
  unfolding auto_remediate
  auto_remediate-step config source from targets snapshot health checked ill latest = ground arith

  -- Where the policy is violated, the target has no snapshot, takes its metadata, and the source
  -- can read none of the files that the snapshot lists, `auto_remediate` reports one action,
  -- although it has written the metadata and no file.
  pub auto_remediate-unreadable :
      (config : ReplicatorConfig) (source : String) (from target : S) (snapshot : Snapshot)
      (health : PolicyHealth)
      → check_health ops config.policy source (from ∷ target ∷ []) ≡ ok health
      → health.healthy ≡ false
      → ops.latest_snapshot from source ≡ ok (some snapshot)
      → holds ops (ops.latest_snapshot target source) ≡ false
      → (ops.store_snapshot target snapshot).0 ≡ ok tt
      → All
          (λ (entry : FileEntry). is_ok (ops.retrieve_file from snapshot.id entry.path) ≡ false)
          snapshot.entries
      → auto_remediate config source from (target ∷ []) ≡ (ok 1, metadata_only snapshot target ∷ [])
  unfolding remediate_targets remediate_one
  auto_remediate-unreadable config source from target snapshot health checked ill latest absent
        stored lost =
      auto_remediate-step config source from (target ∷ []) snapshot health checked ill latest
      ∙ rw absent (
          rw stored (
            rw
              (copy_readable-none from snapshot.id snapshot.entries (metadata_only snapshot target)
                lost)
              refl))
