-- ===== src/Replicator/Maintenance.antt =====
-- crates/openvault-core/src/replicator.rs, `maintain_321`: the check over all backends, the
-- remediation and the healing of every replica from the primary storage. A scan never fails, so
-- that its `?` has nothing to return.
use open_vault.Common.{
  ℕ, ◌+◌, ◌%◌, ◌^◌, String, Bool, not, ◌&&◌, Option, none, some, List, [], ◌∷◌, if◌then◌else◌,
}
use open_vault.Vault.{text, number, Message, Bytes, VaultResult, ok, err, VaultStorage, Snapshot}
use open_vault.Healing.{HealingResult, default, scan, is_all_healthy, heal}
use open_vault.Replicator.{ReplicatorConfig, HealthCheckResult, coordinator_check}
use open_vault.Replicator.Remediation.{auto_remediate}

pub record MaintenanceResult : Type 0 where
  pub policy_healthy : Bool
  pub backends_with_corruption : ℕ
  pub remediation_actions : ℕ
  pub healing_actions : ℕ
  pub summary : Message

abbrev pub summarized : MaintenanceResult → MaintenanceResult
summarized r = record r {
  summary =
      text "3-2-1 Maintenance: policy="
      ∷ text (if r.policy_healthy then "OK" else "VIOLATED")
      ∷ text ", corruption="
      ∷ number r.backends_with_corruption
      ∷ text ", remediated="
      ∷ number r.remediation_actions
      ∷ text ", healed="
      ∷ number r.healing_actions
      ∷ [];
}

abbrev pub count_healed : MaintenanceResult → VaultResult HealingResult → MaintenanceResult
count_healed r (err e) = r
count_healed r (ok h) = record r { healing_actions = (r.healing_actions + h.files_healed) % 2 ^ 32 }

module _ {S : Type 0} (sha256 : Bytes → String) (ops : VaultStorage S) where
  abbrev pub heal_replica : S → MaintenanceResult → S → Snapshot → MaintenanceResult × S
  heal_replica primary r replica snapshot =
      let (outcome, replica') = heal sha256 ops replica primary snapshot default in
      (count_healed r outcome, replica')

  -- A round of the loop over the replicas, by what the replica's latest snapshot is.
  abbrev pub after_replica :
      S → MaintenanceResult → S → VaultResult (Option Snapshot) → MaintenanceResult × S
  after_replica primary r replica (err e) = (r, replica)
  after_replica primary r replica (ok none) = (r, replica)
  after_replica primary r replica (ok (some snapshot)) =
      if is_all_healthy (scan sha256 ops replica snapshot)
      then (r, replica)
      else heal_replica primary r replica snapshot

  unfoldable pub heal_replicas :
      String → S → MaintenanceResult → List S → MaintenanceResult × List S
  heal_replicas source primary r [] = (r, [])
  heal_replicas source primary r (replica ∷ rest) =
      let (r', replica') = after_replica primary r replica (ops.latest_snapshot replica source) in
      let (total, rest') = heal_replicas source primary r' rest in (total, replica' ∷ rest')

  -- The second step: what is done, and the replicas behind it.
  abbrev pub remediated :
      ReplicatorConfig → String → HealthCheckResult → S → List S → VaultResult ℕ × List S
  remediated config source health primary replicas =
      if config.auto_remediate && not health.policy_health.healthy
      then auto_remediate ops config source primary replicas
      else (ok 0, replicas)

  abbrev pub report : HealthCheckResult → ℕ → MaintenanceResult
  report health actions = record {
    policy_healthy = health.policy_health.healthy;
    backends_with_corruption = health.backends_with_corruption;
    remediation_actions = actions;
    healing_actions = 0;
    summary = [];
  }

  abbrev pub after_remediation :
      String
      → HealthCheckResult
      → S
      → VaultResult ℕ × List S
      → VaultResult MaintenanceResult × List S
  after_remediation source health primary (err e, replicas) = (err e, replicas)
  after_remediation source health primary (ok actions, replicas) =
      let (r, replicas') = heal_replicas source primary (report health actions) replicas in
      (ok (summarized r), replicas')

  unfoldable pub maintain_321 :
      ReplicatorConfig → String → S → List S → VaultResult MaintenanceResult × List S
  unfolding heal_replicas
  maintain_321 config source primary replicas =
      elim (coordinator_check sha256 ops config source (primary ∷ replicas)) [
        | err e ↦ (err e, replicas)
        | ok health ↦
            after_remediation source health primary
              (remediated config source health primary replicas)
      ]
