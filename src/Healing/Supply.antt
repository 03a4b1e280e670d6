-- ===== src/Healing/Supply.antt =====
-- Healing from a source that has every file, to a target that takes every write.
use open_vault.Common.{
  ℕ, ◌≡◌, refl, sym, ap, ◌∙◌, subst, inl, inr, String, true, false, none, List, [], ◌∷◌, arith, All,
  ◌==◌, string_eq, Bool-cases,
}
use open_vault.Vault.{Bytes, VaultResult-cases, ok, VaultStorage, StorageLaws}
use open_vault.Healing.{
  HealingConfig, FileCheckResult, HealingResult, Attempt, healed, heals_after, record_attempt,
  limit_reached, heal_checks, heal_file, write_healed, verify_healed,
}
use open_vault.Healing.Scan.{intact}

module _ (sha256 : Bytes → String) {S : Type 0} (ops : VaultStorage S) (laws : StorageLaws ops)
    (config : HealingConfig) where
  -- Every write to the storage succeeds.
  abbrev pub Writable : Type 0
  Writable = (s : S) (id path : String) (bytes : Bytes) → (ops.store_file s id path bytes).0 ≡ ok tt

  module _ (id : String) (from : S) where
    write_healed-succeeds :
        (c : FileCheckResult) (bytes : Bytes) (target : S)
        → Writable
        → (sha256 bytes == c.expected_checksum) ≡ true
        → (write_healed sha256 ops config id none c bytes target).0 ≡ healed none
    unfolding write_healed verify_healed
    write_healed-succeeds c bytes target writable good = ground (
      arith,
      laws.retrieve-store_self target id c.path bytes (writable target id c.path bytes),
      writable target id c.path bytes,
    )

    pub heal_file-succeeds :
        (c : FileCheckResult) (target : S)
        → Writable
        → intact sha256 ops from id c.path c.expected_checksum ≡ true
        → (heal_file sha256 ops config id none from c target).0 ≡ healed none
    unfolding heal_file
    heal_file-succeeds c target writable there =
        elim (VaultResult-cases (ops.retrieve_file from id c.path)) [
          | inr (e, lost) ↦ absurd (ground arith)
          | inl (bytes, got) ↦
              let good : (sha256 bytes == c.expected_checksum) ≡ true = ground arith in
              let step : heal_file sha256 ops config id none from c target
                  ≡ write_healed sha256 ops config id none c bytes target =
                ground arith in
              ap (λ (r : Attempt × S). r.0) step
              ∙ write_healed-succeeds c bytes target writable good
        ]

    -- Whatever comes of an attempt, the latest snapshots stay.
    write_healed-latest :
        (c : FileCheckResult) (bytes : Bytes) (target : S) (source : String)
        → ops.latest_snapshot (write_healed sha256 ops config id none c bytes target).1 source
          ≡ ops.latest_snapshot target source
    unfolding write_healed
    write_healed-latest c bytes target source =
        ground (arith, laws.latest-store_file target id c.path bytes source)

    pub heal_file-latest :
        (c : FileCheckResult) (target : S) (source : String)
        → ops.latest_snapshot (heal_file sha256 ops config id none from c target).1 source
          ≡ ops.latest_snapshot target source
    unfolding heal_file
    heal_file-latest c target source = elim (VaultResult-cases (ops.retrieve_file from id c.path)) [
      | inr (e, lost) ↦ ground arith
      | inl (bytes, got) ↦ elim (Bool-cases (sha256 bytes == c.expected_checksum)) [
        | inr bad ↦ ground arith
        | inl good ↦
            let step : heal_file sha256 ops config id none from c target
                ≡ write_healed sha256 ops config id none c bytes target =
              ground arith in
            ap (λ (r : Attempt × S). ops.latest_snapshot r.1 source) step
            ∙ write_healed-latest c bytes target source
      ]
    ]

  -- A round of the healing loop, for any claim about what it comes to.
  module _ (attempt : FileCheckResult → S → Attempt × S) where
    abbrev round :
        ℕ → HealingResult → FileCheckResult → List FileCheckResult → S → HealingResult × S
    round heals result c cs target =
        let (outcome, target') = attempt c target in
        heal_checks attempt config (heals_after outcome heals)
          (record_attempt c.path outcome result) cs target'

    module _ (c : FileCheckResult) (cs : List FileCheckResult) (heals : ℕ) (result : HealingResult)
        (target : S) where
      skipped :
          c.healthy ≡ true
          → heal_checks attempt config heals result (c ∷ cs) target
            ≡ heal_checks attempt config heals result cs target
      unfolding heal_checks
      skipped fine = ground arith

      stopped :
          c.healthy ≡ false
          → limit_reached config heals ≡ true
          → heal_checks attempt config heals result (c ∷ cs) target ≡ (result, target)
      unfolding heal_checks
      stopped ill full = ground arith

      tried :
          c.healthy ≡ false
          → limit_reached config heals ≡ false
          → heal_checks attempt config heals result (c ∷ cs) target ≡ round heals result c cs target
      unfolding heal_checks
      tried ill room = ground arith

      heal_checks-elim :
          (P : HealingResult × S → Type 0)
          → P (heal_checks attempt config heals result cs target)
          → P (result, target)
          → P (round heals result c cs target)
          → P (heal_checks attempt config heals result (c ∷ cs) target)
      heal_checks-elim P skip stop once = elim (Bool-cases c.healthy) [
        | inl fine ↦ subst P (sym (skipped fine)) skip
        | inr ill ↦ elim (Bool-cases (limit_reached config heals)) [
          | inl full ↦ subst P (sym (stopped ill full)) stop
          | inr room ↦ subst P (sym (tried ill room)) once
        ]
      ]

    pub heal_checks-latest :
        (source : String)
        → ((c : FileCheckResult) (t : S)
            → ops.latest_snapshot (attempt c t).1 source ≡ ops.latest_snapshot t source)
        → (cs : List FileCheckResult) (heals : ℕ) (result : HealingResult) (target : S)
        → ops.latest_snapshot (heal_checks attempt config heals result cs target).1 source
          ≡ ops.latest_snapshot target source
    unfolding heal_checks
    heal_checks-latest source same [] heals result target = refl
    heal_checks-latest source same (c ∷ cs) heals result target =
        heal_checks-elim c cs heals result target
          (λ r. ops.latest_snapshot r.1 source ≡ ops.latest_snapshot target source)
          (heal_checks-latest source same cs heals result target) refl
          (heal_checks-latest source same cs _ _ _ ∙ same c target)

    abbrev pub Served : FileCheckResult → Type 0
    Served c = (t : S) → (attempt c t).0 ≡ healed none

    failed-served :
        (name : String) (outcome : Attempt) (result : HealingResult)
        → outcome ≡ healed none
        → (record_attempt name outcome result).files_failed ≡ result.files_failed
    unfolding record_attempt
    failed-served name outcome result e = ground arith

    pub heal_checks-Served :
        (cs : List FileCheckResult) (heals : ℕ) (result : HealingResult) (target : S)
        → All Served cs
        → (heal_checks attempt config heals result cs target).0.files_failed ≡ result.files_failed
    unfolding heal_checks
    heal_checks-Served [] heals result target served = refl
    heal_checks-Served (c ∷ cs) heals result target (here, later) =
        heal_checks-elim c cs heals result target (λ r. r.0.files_failed ≡ result.files_failed)
          (heal_checks-Served cs heals result target later) refl
          (heal_checks-Served cs _ _ _ later
            ∙ failed-served c.path (attempt c target).0 result (here target))
