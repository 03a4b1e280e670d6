-- ===== src/Compliance/Verdict.antt =====
-- What the report of a check says of the rules.
use open_vault.Common.{
  ℕ, ◌+◌, ◌<◌, ◌^◌, ◌≡◌, refl, ap, ◌∙◌, String, Bool, not, ◌&&◌, Option, List, [], ◌∷◌,
  if◌then◌else◌, ltb, ◌*◌, ◌||◌, false, All, Bool-cases, inl, inr, any, filter, length, arith,
}
use open_vault.Vault.{Time}
use open_vault.Compliance.{
  ComplianceRule, RetentionPolicy, keep_all, keep_years, keep_until, custom, ComplianceReport, pass,
  fail, rank, from_path, matches_path, is_region_compliant, retention_findings, check_rule,
  check_rules, begun, check,
}

pub ltb-any : {A : Type 0} (p : A → Bool) (xs : List A) → ltb 0 (length (filter p xs)) ≡ any p xs
ltb-any p [] = refl
ltb-any p (x ∷ xs) = ground (arith, ltb-any p xs)

-- A rule that is enabled and whose patterns match.
abbrev pub applicable : String → ComplianceRule → Bool
applicable path rule = rule.enabled && matches_path rule path

-- More years of 365 days than the days that are kept.
abbrev pub too_short : ℕ → RetentionPolicy → Bool
too_short days (keep_years years) = ltb days (years * 365)
too_short days keep_all = false
too_short days (keep_until date) = false
too_short days (custom expression) = false

-- The days of the years are below 2^32, where the code computes them.
abbrev pub DaysFit : RetentionPolicy → Type 0
DaysFit (keep_years years) = years * 365 < 2 ^ 32
DaysFit keep_all = Unit
DaysFit (keep_until date) = Unit
DaysFit (custom expression) = Unit

module _ (lowercase : String → String) (parse_date : String → Option ℕ) (now : Time)
    (path region : String) (days : ℕ) where
  abbrev pub retained : ComplianceRule → Bool
  retained rule = (retention_findings lowercase parse_date now rule path days rule.retention).1

  -- As the code decides it.
  abbrev refused : ComplianceRule → Bool
  refused rule =
      applicable path rule
      && not (ltb (rank (from_path lowercase path)) (rank rule.classification))
      && not (is_region_compliant rule region && retained rule)

  -- A rule that applies, is not meant for a higher classification than the path has, and forbids
  -- the region or wants a longer retention.
  abbrev pub violated : ComplianceRule → Bool
  violated rule =
      applicable path rule
      && not (ltb (rank (from_path lowercase path)) (rank rule.classification))
      && (not (is_region_compliant rule region) || too_short days rule.retention)

  retained-too_short :
      (rule : ComplianceRule) (policy : RetentionPolicy)
      → DaysFit policy
      → (retention_findings lowercase parse_date now rule path days policy).1
        ≡ not (too_short days policy)
  retained-too_short rule keep_all fit = refl
  retained-too_short rule (keep_years years) fit = ground arith
  retained-too_short rule (keep_until date) fit = ground arith
  retained-too_short rule (custom expression) fit = refl

  filter-refused :
      (rules : List ComplianceRule)
      → All (λ (rule : ComplianceRule). DaysFit rule.retention) rules
      → filter refused rules ≡ filter violated rules
  filter-refused [] fit = refl
  filter-refused (rule ∷ rules) fit =
      let same : refused rule ≡ violated rule =
        ground (arith, retained-too_short rule rule.retention fit.0) in
      rw same (elim (Bool-cases (violated rule)) [
        | inl bad ↦ rw bad (ap (λ (l : List ComplianceRule). rule ∷ l) (filter-refused rules fit.1))
        | inr good ↦ rw good (filter-refused rules fit.1)
      ])

  abbrev after : ComplianceRule → ComplianceReport → ComplianceReport
  after rule r = check_rule lowercase parse_date now path region days rule r

  module _ (rule : ComplianceRule) (r : ComplianceReport) (few : r.rules_checked + 1 < 2 ^ 32)
      (sum : r.rules_passed + r.rules_failed ≡ r.rules_checked) where
    check_rule-checked :
        (after rule r).rules_checked
        ≡ (if applicable path rule then r.rules_checked + 1 else r.rules_checked)
    unfolding check_rule
    check_rule-checked = ground arith

    check_rule-failed :
        (after rule r).rules_failed ≡ (if refused rule then r.rules_failed + 1 else r.rules_failed)
    unfolding check_rule
    check_rule-failed = ground arith

    check_rule-sum :
        (after rule r).rules_passed + (after rule r).rules_failed ≡ (after rule r).rules_checked
    unfolding check_rule
    check_rule-sum = ground arith

  count-cons :
      (p : ComplianceRule → Bool) (rule : ComplianceRule) (rules : List ComplianceRule) (a b c : ℕ)
      → b ≡ (if p rule then a + 1 else a)
      → c ≡ b + length (filter p rules)
      → c ≡ a + length (filter p (rule ∷ rules))
  count-cons p rule rules a b c e f = ground arith

  check_rules-counts :
      (rules : List ComplianceRule) (r : ComplianceReport)
      → r.rules_checked + length rules < 2 ^ 32
      → r.rules_passed + r.rules_failed ≡ r.rules_checked
      → let r' = check_rules lowercase parse_date now path region days rules r in
        (r'.rules_passed + r'.rules_failed ≡ r'.rules_checked)
        × (r'.rules_checked ≡ r.rules_checked + length (filter (applicable path) rules))
        × (r'.rules_failed ≡ r.rules_failed + length (filter refused rules))
  unfolding check_rules
  check_rules-counts [] r few sum = (sum, omega arith, omega arith)
  check_rules-counts (rule ∷ rules) r few sum =
      let here = check_rule-checked rule r (omega arith) sum in
      let (sum', checked, failed) =
        check_rules-counts rules (after rule r) (ground (arith, here))
          (check_rule-sum rule r (omega arith) sum) in
      (
        sum',
        count-cons (applicable path) rule rules r.rules_checked _ _ here checked,
        count-cons refused rule rules r.rules_failed _ _
            (check_rule-failed rule r (omega arith) sum) failed,
      )

  -- With fewer than 2^32 rules, of which no KeepYears is of 2^32 days or more, the report counts
  -- the enabled rules whose patterns match the path, each as passed or failed; as failed exactly
  -- those that forbid the region or want more days, 365 for each year of a KeepYears rule, than the
  -- policy keeps, and are not meant for a higher classification than the one inferred from the
  -- path; and the status is Fail exactly where there is such a rule.
  pub check-verdict :
      (rules : List ComplianceRule)
      → length rules < 2 ^ 32
      → All (λ (rule : ComplianceRule). DaysFit rule.retention) rules
      → let report = check lowercase parse_date rules now path region days in
        (report.rules_checked ≡ length (filter (applicable path) rules))
        × (report.rules_passed + report.rules_failed ≡ report.rules_checked)
        × (report.rules_failed ≡ length (filter violated rules))
        × (report.overall_status ≡ (if any violated rules then fail else pass))
  unfolding check
  check-verdict rules few fit =
      let (sum, checked, failed) =
        check_rules-counts rules (begun lowercase parse_date now) (omega (arith, few)) refl in
      let exact : (check_rules lowercase parse_date now path region days rules
            (begun lowercase parse_date now)).rules_failed
          ≡ length (filter violated rules) =
        omega (arith, failed, ap (length {A = ComplianceRule}) (filter-refused rules fit)) in
      (
        omega (arith, checked),
        sum,
        exact,
        ap (λ (n : ℕ). if ltb 0 n then fail else pass) exact
            ∙ ap (λ (b : Bool). if b then fail else pass) (ltb-any violated rules),
      )
