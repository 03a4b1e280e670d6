-- ===== src/Healing/Repair.antt =====
-- A healing that reports no failure, judged by another scan.
use open_vault.Common.{
  ◌<◌, ◌^◌, ◌≡◌, ap, ◌∙◌, inl, inr, String, true, Option, none, some, List, arith, length, All,
  string_eq, Bool-cases,
}
use open_vault.Vault.{Bytes, ok, ok-injective, VaultStorage, StorageLaws, Snapshot, FileEntry}
use open_vault.Healing.{
  HealingConfig, FileCheckResult, HealingResult, Attempt, heal_checks, no_heals, scan,
  is_all_healthy, heal_file, try_sources, heal_with, heal, heal_from_sources,
}
use open_vault.Healing.Scan.{scan-Scanned}
use open_vault.Healing.Attempts.{Repairs, heal_file-Repairs, try_sources-Repairs}
use open_vault.Healing.Loop.{Healed, heal_checks-Healed, Reports-fixed, Reports-all}

module _ (sha256 : Bytes → String) {S : Type 0} (ops : VaultStorage S) (laws : StorageLaws ops)
    (snapshot : Snapshot) (config : HealingConfig) (expected : String → String)
    (few : length snapshot.entries < 2 ^ 32) (unlimited : config.max_heals_per_run ≡ 0)
    (fixed : All (λ (e : FileEntry). e.checksum ≡ expected e.path) snapshot.entries) where
  heal_with-healthy :
      (attempt : FileCheckResult → S → Attempt × S)
      (repairs : (check : FileCheckResult) (target : S)
        → Repairs sha256 ops laws config snapshot.id check target (attempt check target))
      (source : Option String) (target : S)
      → let (r, target') = heal_with sha256 ops attempt source snapshot config target in
        r.files_failed ≡ 0 → is_all_healthy (scan sha256 ops target' snapshot) ≡ true
  unfolding heal_with Healed
  heal_with-healthy attempt repairs source target none_failed =
      let found = scan sha256 ops target snapshot in
      elim (Bool-cases (is_all_healthy found)) [
        | inl healthy ↦ rw healthy healthy
        | inr ill ↦ rw ill (
            healed_all
              (heal_checks attempt config 0 (no_heals sha256 ops snapshot.id source) found.checks
                target)
              (rw ill at none_failed)
              (heal_checks-Healed sha256 ops laws config snapshot.id attempt repairs expected
                unlimited found.checks 0 (no_heals sha256 ops snapshot.id source) target
                (known target).1 (omega (arith, (known target).0))))
      ]
    where
      known :
          (target : S)
          → (length (scan sha256 ops target snapshot).checks < 2 ^ 32)
            × All
                (λ (c : FileCheckResult). c.expected_checksum ≡ expected c.path)
                (scan sha256 ops target snapshot).checks
      known target =
          let (len, all_fixed) =
            Reports-fixed sha256 ops laws config snapshot.id attempt repairs expected unlimited
              target snapshot.entries _ (scan-Scanned sha256 ops target snapshot few).4 fixed in
          (omega (arith, len), all_fixed)

      healed_all :
          (r : HealingResult × S)
          → r.0.files_failed ≡ 0
          → Healed sha256 ops laws config snapshot.id attempt repairs expected unlimited
              (scan sha256 ops target snapshot).checks
              (no_heals sha256 ops snapshot.id source)
              target
              r
          → is_all_healthy (scan sha256 ops r.1 snapshot) ≡ true
      healed_all r zero_failed h =
          (scan-Scanned sha256 ops r.1 snapshot few).3
          ∙ Reports-all sha256 ops laws config snapshot.id attempt repairs expected unlimited target
              r.1 snapshot.entries (scan sha256 ops target snapshot).checks
              (scan-Scanned sha256 ops target snapshot few).4 fixed (h.1 zero_failed)

  -- Let the storage keep its laws, the snapshot list fewer than 2^32 files, with one checksum for a
  -- path, and the number of heals be unlimited. A healing that reports no failed file leaves a
  -- target of which a scan reports all files healthy; this holds with verification and without.
  pub heal-healthy :
      (target from : S) (result : HealingResult)
      → let (r, target') = heal sha256 ops target from snapshot config in
        r ≡ ok result
        → result.files_failed ≡ 0
        → is_all_healthy (scan sha256 ops target' snapshot) ≡ true
  unfolding heal
  heal-healthy target from result e none_failed =
      heal_with-healthy (heal_file sha256 ops config snapshot.id none from)
        (heal_file-Repairs sha256 ops laws config snapshot.id none from)
        (some (ops.backend_name from)) target
        (ap (λ (r : HealingResult). r.files_failed) (ok-injective e) ∙ none_failed)

  -- Under the same conditions (the laws of the storage, fewer than 2^32 files, one checksum for a
  -- path, an unlimited number of heals), a healing from several sources, tried in order, that
  -- reports no failed file leaves a target of which a scan reports all files healthy.
  pub heal_from_sources-healthy :
      (target : S) (sources : List S) (result : HealingResult)
      → let (r, target') = heal_from_sources sha256 ops target sources snapshot config in
        r ≡ ok result
        → result.files_failed ≡ 0
        → is_all_healthy (scan sha256 ops target' snapshot) ≡ true
  unfolding heal_from_sources
  heal_from_sources-healthy target sources result e none_failed =
      heal_with-healthy (try_sources sha256 ops config snapshot.id sources)
        (try_sources-Repairs sha256 ops laws config snapshot.id sources) none target
        (ap (λ (r : HealingResult). r.files_failed) (ok-injective e) ∙ none_failed)
