-- ===== src/Replicator/Upkeep.antt =====
-- What `maintain_321` makes of the replicas, judged by another scan.
use open_vault.Common.{
  suc, false, ℕ, ◌<◌, ◌^◌, ◌≡◌, refl, sym, ap, ◌∙◌, subst, inl, inr, String, Bool, true, Option,
  none, some, List, [], ◌∷◌, arith, length, All, all, Bool-cases,
}
use open_vault.Vault.{Bytes, VaultResult, ok, err, VaultStorage, StorageLaws, Snapshot, FileEntry}
use open_vault.Healing.{
  FileCheckResult, HealingResult, Attempt, default, heal, heal_with, heal_file, heal_checks,
  no_heals, scan, is_all_healthy,
}
use open_vault.Healing.Scan.{intact, intact_entry, Reports, scan-Scanned}
use open_vault.Healing.Repair.{heal-healthy}
use open_vault.Healing.Supply.{
  Writable, Served, heal_file-succeeds, heal_file-latest, heal_checks-latest, heal_checks-Served,
}
use open_vault.Replicator.{ReplicatorConfig, HealthCheckResult, coordinator_check}
use open_vault.Replicator.Checkup.{clean_latest, is_clean}
use open_vault.Replicator.Maintenance.{
  MaintenanceResult, after_replica, heal_replicas, remediated, report, after_remediation,
  maintain_321,
}

all-All :
    {A : Type 0} (p : A → Bool) (xs : List A) → all p xs ≡ true → All (λ (x : A). p x ≡ true) xs
all-All p [] e = tt
all-All p (x ∷ xs) e = (ground arith, all-All p xs (ground arith))

module _ (sha256 : Bytes → String) {S : Type 0} (ops : VaultStorage S)
    (laws : StorageLaws ops) where
  -- A snapshot that lists fewer than 2^32 files, one checksum for a path, and whose files the
  -- primary storage has.
  abbrev pub Restorable : S → Snapshot → Type 0
  Restorable primary snapshot =
      (length snapshot.entries < 2 ^ 32)
      × ((expected : String → String) × All (λ (e : FileEntry). e.checksum ≡ expected e.path)
            snapshot.entries)
      × (is_all_healthy (scan sha256 ops primary snapshot) ≡ true)

  abbrev pub RestorableLatest : S → VaultResult (Option Snapshot) → Type 0
  RestorableLatest primary (err e) = Unit
  RestorableLatest primary (ok none) = Unit
  RestorableLatest primary (ok (some snapshot)) = Restorable primary snapshot

  module _ (primary : S) (writable : Writable sha256 ops laws default) where
    Reports-Served :
        (id : String) (target : S) (es : List FileEntry) (cs : List FileCheckResult)
        → Reports sha256 ops target id es cs
        → All (λ (e : FileEntry). intact_entry sha256 ops primary id e ≡ true) es
        → All (Served sha256 ops laws default (heal_file sha256 ops default id none primary)) cs
    Reports-Served id target [] [] rep there = tt
    Reports-Served id target [] (c ∷ cs) rep there = absurd rep
    Reports-Served id target (e ∷ es) [] rep there = tt
    Reports-Served id target (e ∷ es) (c ∷ cs) ((p, q, _), rep) (here, later) = (
      λ t. heal_file-succeeds sha256 ops laws default id primary c t writable (
          subst (λ (k : String). intact sha256 ops primary id c.path k ≡ true) (sym q)
            (subst (λ (k : String). intact sha256 ops primary id k e.checksum ≡ true) (sym p)
              here)),
      Reports-Served id target es cs rep later,
    )

    module _ (snapshot : Snapshot) (restorable : Restorable primary snapshot) (target : S) where
      attempt : FileCheckResult → S → Attempt × S
      attempt = heal_file sha256 ops default snapshot.id none primary

      abbrev outcome : HealingResult × S
      outcome =
          heal_with sha256 ops attempt (some (ops.backend_name primary)) snapshot default target

      abbrev begun : HealingResult
      begun = no_heals sha256 ops snapshot.id (some (ops.backend_name primary))

      abbrev looped : HealingResult × S
      looped = heal_checks attempt default 0 begun (scan sha256 ops target snapshot).checks target

      none_failed : looped.0.files_failed ≡ 0
      unfolding attempt
      none_failed =
          let whole = (scan-Scanned sha256 ops primary snapshot restorable.0).3 in
          heal_checks-Served sha256 ops laws default attempt
            (scan sha256 ops target snapshot).checks 0 begun target
            (Reports-Served snapshot.id target snapshot.entries _
              (scan-Scanned sha256 ops target snapshot restorable.0).4
              (all-All (intact_entry sha256 ops primary snapshot.id) snapshot.entries
                (sym whole ∙ restorable.2)))

      same_latest :
          (source : String)
          → ops.latest_snapshot looped.1 source ≡ ops.latest_snapshot target source
      unfolding attempt
      same_latest source =
          heal_checks-latest sha256 ops laws default attempt source
            (λ c t. heal_file-latest sha256 ops laws default snapshot.id primary c t source)
            (scan sha256 ops target snapshot).checks 0 begun target

      heal_with-kept :
          (source : String)
          → (outcome.0.files_failed ≡ 0)
            × (ops.latest_snapshot outcome.1 source ≡ ops.latest_snapshot target source)
      unfolding heal_with
      heal_with-kept source = elim (Bool-cases (is_all_healthy (scan sha256 ops target snapshot))) [
        | inl healthy ↦ rw healthy (refl, refl)
        | inr ill ↦ rw ill (none_failed, same_latest source)
      ]

      heal-clean :
          (source : String)
          → let target' = (heal sha256 ops target primary snapshot default).1 in
            (is_all_healthy (scan sha256 ops target' snapshot) ≡ true)
            × (ops.latest_snapshot target' source ≡ ops.latest_snapshot target source)
      unfolding heal attempt default
      heal-clean source =
          let kept = heal_with-kept source in
          (
            heal-healthy sha256 ops laws snapshot default restorable.1.0 restorable.0 refl
                restorable.1.1 target primary outcome.0 refl kept.0,
            kept.1,
          )

    -- A round of the loop leaves a replica whose latest snapshot, if it has one, is healthy.
    replica-stays :
        (source : String) (r : MaintenanceResult) (replica : S)
        (latest : VaultResult (Option Snapshot))
        → clean_latest sha256 ops source replica latest ≡ true
        → (after_replica sha256 ops primary r replica latest).1 ≡ replica
    replica-stays source r replica (err e) clean = refl
    replica-stays source r replica (ok none) clean = refl
    replica-stays source r replica (ok (some snapshot)) clean = ground arith

    after_replica-clean :
        (source : String) (r : MaintenanceResult) (replica : S)
        (latest : VaultResult (Option Snapshot))
        → ops.latest_snapshot replica source ≡ latest
        → RestorableLatest primary latest
        → is_clean sha256 ops source (after_replica sha256 ops primary r replica latest).1 ≡ true
    after_replica-clean source r replica (err e) at fit = rw at refl
    after_replica-clean source r replica (ok none) at fit = rw at refl
    after_replica-clean source r replica (ok (some snapshot)) at fit =
        elim (Bool-cases (is_all_healthy (scan sha256 ops replica snapshot))) [
          | inl healthy ↦
              subst (λ (s : S). is_clean sha256 ops source s ≡ true)
                (sym (replica-stays source r replica (ok (some snapshot)) healthy))
                (ap (clean_latest sha256 ops source replica) at ∙ healthy)
          | inr ill ↦
              let (healthy, same) = heal-clean snapshot fit replica source in
              let target' = (heal sha256 ops replica primary snapshot default).1 in
              subst (λ (s : S). is_clean sha256 ops source s ≡ true) (sym (healed ill))
                (ap (clean_latest sha256 ops source target') (same ∙ at) ∙ healthy)
        ]
      where
        healed :
            is_all_healthy (scan sha256 ops replica snapshot) ≡ false
            → (after_replica sha256 ops primary r replica (ok (some snapshot))).1
              ≡ (heal sha256 ops replica primary snapshot default).1
        healed ill = ground arith

    heal_replicas-clean :
        (source : String) (r : MaintenanceResult) (replicas : List S)
        → All (λ (s : S). RestorableLatest primary (ops.latest_snapshot s source)) replicas
        → let (total, after) = heal_replicas sha256 ops source primary r replicas in
          (length after ≡ length replicas)
          × All (λ (s : S). is_clean sha256 ops source s ≡ true) after
    unfolding heal_replicas
    heal_replicas-clean source r [] fit = (refl, tt)
    heal_replicas-clean source r (replica ∷ rest) (here, later) =
        let latest = ops.latest_snapshot replica source in
        let (same, clean) =
          heal_replicas-clean source (after_replica sha256 ops primary r replica latest).0 rest
            later in
        (ap suc same, (after_replica-clean source r replica latest refl here, clean))

  maintain-step :
      (config : ReplicatorConfig) (source : String) (primary : S) (replicas remedied : List S)
      (health : HealthCheckResult) (actions : ℕ)
      → coordinator_check sha256 ops config source (primary ∷ replicas) ≡ ok health
      → remediated sha256 ops config source health primary replicas ≡ (ok actions, remedied)
      → maintain_321 sha256 ops config source primary replicas
        ≡ after_remediation sha256 ops source health primary (ok actions, remedied)
  unfolding maintain_321
  maintain-step config source primary replicas remedied health actions checked acted =
      after-check (coordinator_check sha256 ops config source (primary ∷ replicas)) checked
      ∙ ap (after_remediation sha256 ops source health primary) acted
    where
      after-check :
          (r : VaultResult HealthCheckResult)
          → r ≡ ok health
          → (elim r as (λ _. VaultResult MaintenanceResult × List S) [
            | err e ↦ (err e, replicas)
            | ok h ↦
                after_remediation sha256 ops source h primary
                  (remediated sha256 ops config source h primary replicas)
          ])
            ≡ after_remediation sha256 ops source health primary
                (remediated sha256 ops config source health primary replicas)
      after-check r e = rw e refl

  -- Let the storages keep their laws and take every write, and let the remediation, where it is
  -- done, succeed. If the primary storage has every file of the latest snapshot of every replica
  -- (which lists fewer than 2^32 files, with one checksum for a path), the maintenance succeeds,
  -- and on every replica behind it a scan of the latest snapshot finds all files healthy, whatever
  -- was corrupt or missing before.
  pub maintain_321-clean :
      (config : ReplicatorConfig) (source : String) (primary : S) (replicas remedied : List S)
      (health : HealthCheckResult) (actions : ℕ)
      → Writable sha256 ops laws default
      → coordinator_check sha256 ops config source (primary ∷ replicas) ≡ ok health
      → remediated sha256 ops config source health primary replicas ≡ (ok actions, remedied)
      → All (λ (s : S). RestorableLatest primary (ops.latest_snapshot s source)) remedied
      → let (done, after) = maintain_321 sha256 ops config source primary replicas in
        ((result : MaintenanceResult) × (done ≡ ok result))
        × (length after ≡ length remedied)
        × All (λ (s : S). is_clean sha256 ops source s ≡ true) after
  maintain_321-clean config source primary replicas remedied health actions writable checked acted
        fit =
      subst
        (λ (r : VaultResult MaintenanceResult × List S).
          ((result : MaintenanceResult) × (r.0 ≡ ok result))
          × (length r.1 ≡ length remedied)
          × All (λ (s : S). is_clean sha256 ops source s ≡ true) r.1)
        (sym (maintain-step config source primary replicas remedied health actions checked acted))
        (
          (_, refl),
          (heal_replicas-clean primary writable source (report sha256 ops health actions) remedied
              fit).0,
          (heal_replicas-clean primary writable source (report sha256 ops health actions) remedied
              fit).1,
        )
