-- ===== src/Healing/Loop.antt =====
-- What the loop over the checks of a scan does to the target storage.
use open_vault.Common.{
  ℕ, ◌+◌, ◌<◌, ◌≤◌, ◌^◌, ◌≡◌, ◌⊎◌, refl, sym, ap, subst, ◌∙◌, inl, inr, String, Bool, true, false,
  Option, List, [], ◌∷◌, arith, length, All, Any, all, ◌==◌, string_eq, Bool-cases, eq_iff,
}
use open_vault.Vault.{Bytes, VaultStorage, StorageLaws, FileEntry}
use open_vault.Healing.{
  HealingConfig, FileCheckResult, HealingResult, Attempt, healed, failed, record_attempt,
  heals_after, limit_reached, heal_checks,
}
use open_vault.Healing.Scan.{intact, intact_entry, Reports}
use open_vault.Healing.Attempts.{Repairs}

module _ (sha256 : Bytes → String) {S : Type 0} (ops : VaultStorage S) (laws : StorageLaws ops)
    (config : HealingConfig) (id : String) where
  module _ (attempt : FileCheckResult → S → Attempt × S)
      (repairs : (check : FileCheckResult) (target : S)
        → Repairs sha256 ops laws config id check target (attempt check target))
      (expected : String → String) (unlimited : config.max_heals_per_run ≡ 0) where
    abbrev good : S → String → Bool
    good target path = intact sha256 ops target id path (expected path)

    -- A loop that counts no failure leaves every file right that was so, or that had a bad check.
    unfoldable pub Healed : List FileCheckResult → HealingResult → S → HealingResult × S → Type 0
    Healed checks result target r =
        (result.files_failed ≤ r.0.files_failed)
        × (r.0.files_failed ≡ result.files_failed
            → (path : String)
            → (good target path ≡ true)
              ⊎ Any (λ (c : FileCheckResult). (c.path ≡ path) × (c.healthy ≡ false)) checks
            → good r.1 path ≡ true)

    Healed-skip :
        (c : FileCheckResult) (cs : List FileCheckResult) (result : HealingResult) (target : S)
        (r : HealingResult × S)
        → c.healthy ≡ true
        → Healed cs result target r
        → Healed (c ∷ cs) result target r
    unfolding Healed
    Healed-skip c cs result target r healthy (le, rest) = (
      le,
      λ same path now. rest same path (elim now [
        | inl g ↦ inl g
        | inr (inl (p, bad)) ↦ absurd (ground arith)
        | inr (inr q) ↦ inr q
      ]),
    )

    -- After an attempt that healed, the file of the check is right, and those that were so still
    -- are.
    right_after :
        (c : FileCheckResult) (cs : List FileCheckResult) (target target' : S)
        (source : Option String)
        → c.expected_checksum ≡ expected c.path
        → Repairs sha256 ops laws config id c target (healed source, target')
        → (path : String)
        → (good target path ≡ true)
          ⊎ (((c.path ≡ path) × (c.healthy ≡ false))
              ⊎ Any (λ (x : FileCheckResult). (x.path ≡ path) × (x.healthy ≡ false)) cs)
        → (good target' path ≡ true)
          ⊎ Any (λ (x : FileCheckResult). (x.path ≡ path) × (x.healthy ≡ false)) cs
    right_after c cs target target' source fixed rep path now =
        let self : good target' c.path ≡ true =
          subst (λ k. intact sha256 ops target' id c.path k ≡ true) fixed (rep.heals source refl) in
        elim now [
          | inl g ↦ elim (Bool-cases (c.path == path)) [
            | inl same ↦ inl (subst (λ p. good target' p ≡ true) ((eq_iff c.path path).0 same) self)
            | inr ne ↦ inl (rep.keeps path (expected path) (λ e. cc ((eq_iff c.path path).1 e)) g)
          ]
          | inr (inl (p, bad)) ↦ inl (subst (λ p. good target' p ≡ true) p self)
          | inr (inr q) ↦ inr q
        ]

    Healed-try :
        (c : FileCheckResult) (cs : List FileCheckResult) (result : HealingResult) (target : S)
        (outcome : Attempt) (target' : S) (r : HealingResult × S)
        → c.expected_checksum ≡ expected c.path
        → result.files_failed + 1 < 2 ^ 32
        → Repairs sha256 ops laws config id c target (outcome, target')
        → Healed cs (record_attempt c.path outcome result) target' r
        → Healed (c ∷ cs) result target r
    unfolding Healed record_attempt
    Healed-try c cs result target (healed source) target' r fixed few rep (le, rest) = (
      le,
      λ same path now. rest same path (right_after c cs target target' source fixed rep path now),
    )
    Healed-try c cs result target (failed why) target' r fixed few rep (le, rest) =
        (omega (arith, le), λ same path now. absurd (omega (arith, le)))

    failed-record_attempt :
        (name : String) (outcome : Attempt) (result : HealingResult)
        → (record_attempt name outcome result).files_failed ≤ result.files_failed + 1
    unfolding record_attempt
    failed-record_attempt name (healed source) result = omega arith
    failed-record_attempt name (failed why) result = omega arith

    heal_checks-skip :
        (c : FileCheckResult) (cs : List FileCheckResult) (heals : ℕ) (result : HealingResult)
        (target : S)
        → c.healthy ≡ true
        → heal_checks attempt config heals result (c ∷ cs) target
          ≡ heal_checks attempt config heals result cs target
    unfolding heal_checks
    heal_checks-skip c cs heals result target h = ground arith

    heal_checks-try :
        (c : FileCheckResult) (cs : List FileCheckResult) (heals : ℕ) (result : HealingResult)
        (target : S)
        → c.healthy ≡ false
        → heal_checks attempt config heals result (c ∷ cs) target
          ≡ heal_checks attempt config
              (heals_after (attempt c target).0 heals)
              (record_attempt c.path (attempt c target).0 result)
              cs
              (attempt c target).1
    unfolding heal_checks limit_reached
    heal_checks-try c cs heals result target h = ground arith

    pub heal_checks-Healed :
        (checks : List FileCheckResult) (heals : ℕ) (result : HealingResult) (target : S)
        → All (λ (c : FileCheckResult). c.expected_checksum ≡ expected c.path) checks
        → result.files_failed + length checks < 2 ^ 32
        → Healed checks result target (heal_checks attempt config heals result checks target)
    unfolding heal_checks Healed
    heal_checks-Healed [] heals result target fixed few = (omega arith, λ same path. ended path)
      where
        ended : (path : String) → (good target path ≡ true) ⊎ ⊥ → good target path ≡ true
        ended path (inl g) = g
        ended path (inr x) = absurd x
    heal_checks-Healed (c ∷ cs) heals result target fixed few = elim (Bool-cases c.healthy) [
      | inl h ↦
          subst (Healed (c ∷ cs) result target) (sym (heal_checks-skip c cs heals result target h))
            (Healed-skip c cs result target (heal_checks attempt config heals result cs target) h
              (heal_checks-Healed cs heals result target fixed.1 (omega arith)))
      | inr h ↦
          let outcome = (attempt c target).0 in
          let target' = (attempt c target).1 in
          let result' = record_attempt c.path outcome result in
          subst (Healed (c ∷ cs) result target) (sym (heal_checks-try c cs heals result target h)) (
            Healed-try c cs result target outcome target'
              (heal_checks attempt config (heals_after outcome heals) result' cs target') fixed.0
              (omega arith) (repairs c target)
              (heal_checks-Healed cs (heals_after outcome heals) result' target' fixed.1
                (omega (arith, failed-record_attempt c.path outcome result))))
    ]

    pub Reports-fixed :
        (target : S) (es : List FileEntry) (cs : List FileCheckResult)
        → Reports sha256 ops target id es cs
        → All (λ (e : FileEntry). e.checksum ≡ expected e.path) es
        → (length cs ≡ length es)
          × All (λ (c : FileCheckResult). c.expected_checksum ≡ expected c.path) cs
    Reports-fixed target [] [] rep fixed = (refl, tt)
    Reports-fixed target [] (c ∷ cs) rep fixed = absurd rep
    Reports-fixed target (e ∷ es) [] rep fixed = absurd rep
    Reports-fixed target (e ∷ es) (c ∷ cs) ((p, q, _), rep) (f, fs) =
        let (len, rest) = Reports-fixed target es cs rep fs in
        (omega (arith, len), (q ∙ f ∙ ap expected (sym p), rest))

    pub Reports-all :
        (target target' : S) (es : List FileEntry) (cs : List FileCheckResult)
        → Reports sha256 ops target id es cs
        → All (λ (e : FileEntry). e.checksum ≡ expected e.path) es
        → ((path : String)
            → (good target path ≡ true)
              ⊎ Any (λ (c : FileCheckResult). (c.path ≡ path) × (c.healthy ≡ false)) cs
            → good target' path ≡ true)
        → all (intact_entry sha256 ops target' id) es ≡ true
    Reports-all target target' [] cs rep fixed now = refl
    Reports-all target target' (e ∷ es) [] rep fixed now = absurd rep
    Reports-all target target' (e ∷ es) (c ∷ cs) ((p, q, verdict), rep) (f, fs) now =
        let rest =
          Reports-all target target' es cs rep fs
            (λ path x. now path (elim x [ inl g ↦ inl g | inr a ↦ inr (inr a) ])) in
        let this : intact_entry sha256 ops target' id e ≡ true =
          subst (λ k. intact sha256 ops target' id e.path k ≡ true) (sym f)
            (now e.path (elim (Bool-cases (intact_entry sha256 ops target id e)) [
              | inl whole ↦ inl (subst (λ k. intact sha256 ops target id e.path k ≡ true) f whole)
              | inr torn ↦ inr (inl (p, verdict ∙ torn))
            ])) in
        rw (this, rest) refl
