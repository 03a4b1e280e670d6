-- ===== src/Replicator/Checkup.antt =====
-- The check over all backends, against the storages themselves.
use open_vault.Common.{
  ℕ, ◌+◌, ◌<◌, ◌^◌, ◌≡◌, refl, sym, ap, ◌∙◌, String, Bool, true, ◌&&◌, Option, none, some, List, [],
  ◌∷◌, arith, length, all, nat_beq, if◌then◌else◌,
}
use open_vault.Vault.{Bytes, VaultResult, ok, err, VaultStorage, Snapshot}
use open_vault.Policy.{PolicyHealth, check_health}
use open_vault.Healing.{scan, is_all_healthy}
use open_vault.Replicator.{
  ReplicatorConfig, HealthCheckResult, is_healthy, after_latest, scan_backends, coordinator_check,
}

module _ {S : Type 0} (sha256 : Bytes → String) (ops : VaultStorage S) (source : String) where
  abbrev pub clean_latest : S → VaultResult (Option Snapshot) → Bool
  clean_latest storage (ok none) = true
  clean_latest storage (err e) = true
  clean_latest storage (ok (some snapshot)) = is_all_healthy (scan sha256 ops storage snapshot)

  -- A storage without a latest snapshot to be had, or one on which its files are all healthy.
  abbrev pub is_clean : S → Bool
  is_clean storage = clean_latest storage (ops.latest_snapshot storage source)

  abbrev unclean : List S → ℕ
  unclean [] = 0
  unclean (s ∷ ss) = let rest = unclean ss in if is_clean s then rest else rest + 1

  unclean-all : (storages : List S) → nat_beq (unclean storages) 0 ≡ all is_clean storages
  unclean-all [] = refl
  unclean-all (s ∷ ss) = ground (arith, unclean-all ss)

  after_latest-counts :
      (r : HealthCheckResult) (storage : S) (latest : VaultResult (Option Snapshot))
      → r.backends_with_corruption + 1 < 2 ^ 32
      → let r' = after_latest sha256 ops r storage latest in
        (r'.policy_health ≡ r.policy_health)
        × (r'.backends_with_corruption ≡ (
            if clean_latest storage latest
            then r.backends_with_corruption
            else r.backends_with_corruption + 1))
  after_latest-counts r storage (ok none) small = (refl, refl)
  after_latest-counts r storage (err e) small = (refl, refl)
  after_latest-counts r storage (ok (some snapshot)) small = (refl, ground arith)

  scan_backends-counts :
      (storages : List S) (r : HealthCheckResult)
      → r.backends_with_corruption + length storages < 2 ^ 32
      → let r' = scan_backends sha256 ops source r storages in
        (r'.policy_health ≡ r.policy_health)
        × (r'.backends_with_corruption ≡ r.backends_with_corruption + unclean storages)
  unfolding scan_backends
  scan_backends-counts [] r small = (refl, omega arith)
  scan_backends-counts (s ∷ ss) r small =
      let latest = ops.latest_snapshot s source in
      let (same, count) = after_latest-counts r s latest (ground arith) in
      let (kept, counts) =
        scan_backends-counts ss (after_latest sha256 ops r s latest) (ground arith) in
      (kept ∙ same, ground arith)

  healthy-all :
      (storages : List S) (r : HealthCheckResult) (health : PolicyHealth)
      → r.policy_health ≡ health
      → r.backends_with_corruption ≡ unclean storages
      → is_healthy r ≡ (health.healthy && all is_clean storages)
  unfolding is_healthy
  healthy-all storages r health kept counts =
      ap (λ (h : PolicyHealth). h.healthy && nat_beq r.backends_with_corruption 0) kept
      ∙ ap (λ (n : ℕ). health.healthy && nat_beq n 0) counts
      ∙ ap (λ (b : Bool). health.healthy && b) (unclean-all storages)

  -- For fewer than 2^32 storages the check always returns a report. It holds what the policy says
  -- of the storages, and calls them healthy where the policy does and a scan of the latest snapshot
  -- of each storage, if there is one to be had, finds every file healthy.
  pub coordinator_check-healthy :
      (config : ReplicatorConfig) (storages : List S)
      → length storages < 2 ^ 32
      → (report : HealthCheckResult) × (coordinator_check sha256 ops config source storages
          ≡ ok report)
        × (check_health ops config.policy source storages ≡ ok report.policy_health)
        × (is_healthy report ≡ (report.policy_health.healthy && all is_clean storages))
  unfolding coordinator_check check_health
  coordinator_check-healthy config storages small =
      let (kept, counts) = scan_backends-counts storages _ (ground arith) in
      (
        _,
        refl,
        ap (λ (h : PolicyHealth). ok h) (sym kept),
        healthy-all storages _ _ refl (counts ∙ omega arith),
      )
