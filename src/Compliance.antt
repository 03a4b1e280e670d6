-- ===== src/Compliance.antt =====
-- crates/openvault-core/src/compliance.rs: rules, the check of a path against them, and retention.
-- The clock, Unicode's lower case and the parsing of a date by chrono (as a count of days) are
-- parameters, and the clock stands still during a check.
pub mod Globs
pub mod Retention
pub mod Verdict
pub mod Sweep
use open_vault.Common.{
  ℕ, ◌+◌, ◌*◌, ◌/◌, ◌%◌, ◌^◌, String, Bool, true, false, not, ◌&&◌, ◌||◌, Option, none, some, List,
  [], ◌∷◌, ◌++◌, if◌then◌else◌, ltb, leb, ◌==◌, string_eq, any, filter, is_empty, length,
  contains_text,
}
use open_vault.Vault.{text, number, Message, Time}
use open_vault.Compliance.Globs.{glob_match, eq_ignore_ascii_case}

pub data DataClassification : Type 0 where
  public internal confidential restricted : DataClassification

-- The derived order.
abbrev pub rank : DataClassification → ℕ
rank public = 0
rank internal = 1
rank confidential = 2
rank restricted = 3

unfoldable pub from_path : (String → String) → String → DataClassification
from_path lowercase path =
    let lower = lowercase path in
    if contains_text lower "/secret/"
      || contains_text lower "/classified/"
      || contains_text lower "/restricted/"
    then restricted
    else if contains_text lower "/confidential/" || contains_text lower "/private/"
    then confidential
    else if contains_text lower "/internal/" || contains_text lower "/staff/"
    then internal
    else public

pub data RetentionPolicy : Type 0 where
  keep_all : RetentionPolicy
  keep_years : ℕ → RetentionPolicy
  keep_until : String → RetentionPolicy
  custom : String → RetentionPolicy

pub record ComplianceRule : Type 0 where
  pub rule_id : String
  pub name : String
  pub description : String
  pub classification : DataClassification
  pub retention : RetentionPolicy
  pub allowed_regions : List String
  pub path_patterns : List String
  pub enabled : Bool

unfoldable pub matches_path : ComplianceRule → String → Bool
matches_path rule path =
    is_empty rule.path_patterns || any (λ (pat : String). glob_match pat path) rule.path_patterns

unfoldable pub is_region_compliant : ComplianceRule → String → Bool
is_region_compliant rule region =
    is_empty rule.allowed_regions
    || any (λ (r : String). eq_ignore_ascii_case r region) rule.allowed_regions

pub data FindingSeverity : Type 0 where
  info warning critical : FindingSeverity

pub record ComplianceFinding : Type 0 where
  pub rule_id : String
  pub rule_name : String
  pub severity : FindingSeverity
  pub resource : String
  pub message : String
  pub detail : Message

pub data ComplianceStatus : Type 0 where
  pass fail : ComplianceStatus

pub record ComplianceReport : Type 0 where
  pub timestamp : Time
  pub overall_status : ComplianceStatus
  pub findings : List ComplianceFinding
  pub rules_checked : ℕ
  pub rules_passed : ℕ
  pub rules_failed : ℕ

-- The rules in order.
abbrev pub ComplianceChecker : Type 0
ComplianceChecker = List ComplianceRule

pub add_rule : ComplianceRule → ComplianceChecker → ComplianceChecker
add_rule rule rules = rules ++ rule ∷ []

pub remove_rule : String → ComplianceChecker → Bool × ComplianceChecker
remove_rule id rules =
    let kept = filter (λ (r : ComplianceRule). not (r.rule_id == id)) rules in
    (ltb (length kept) (length rules), kept)

abbrev pub joined : List String → Message
joined [] = []
joined (region ∷ []) = text region ∷ []
joined (region ∷ next ∷ rest) = text region ∷ text ", " ∷ joined (next ∷ rest)

-- The finding of a region, if the rule does not allow it.
abbrev pub region_finding : ComplianceRule → String → String → List ComplianceFinding
region_finding rule path region =
    if is_region_compliant rule region
    then []
    else record {
      rule_id = rule.rule_id;
      rule_name = rule.name;
      severity = critical;
      resource = path;
      message = "Region not compliant";
      detail =
          text "Data in region '"
          ∷ text region
          ∷ text "' but rule '"
          ∷ text rule.name
          ∷ text "' requires one of: "
          ∷ joined rule.allowed_regions;
    }
      ∷ []

-- The days that a rule of so many years requires, in 32 bits.
abbrev pub required_days : ℕ → ℕ
required_days years = (years * 365) % 2 ^ 32

abbrev pub short_finding : ComplianceRule → String → ℕ → ℕ → ComplianceFinding
short_finding rule path years days = record {
  rule_id = rule.rule_id;
  rule_name = rule.name;
  severity = warning;
  resource = path;
  message = "Retention too short";
  detail =
      text "Policy retention "
      ∷ number days
      ∷ text " days < required "
      ∷ number (required_days years)
      ∷ text " days ("
      ∷ number years
      ∷ text " years)"
      ∷ [];
}

abbrev pub expired_finding : ComplianceRule → String → String → ComplianceFinding
expired_finding rule path date = record {
  rule_id = rule.rule_id;
  rule_name = rule.name;
  severity = info;
  resource = path;
  message = "Retention period expired";
  detail = text "KeepUntil date " ∷ text date ∷ text " has passed" ∷ [];
}

-- The nanoseconds of a day, and the day of an instant.
abbrev pub day : ℕ
day = 86400000000000

abbrev pub today : Time → ℕ
today now = now / day

module _ (lowercase : String → String) (parse_date : String → Option ℕ) where
  -- The findings of the retention and whether they are a failure.
  abbrev pub retention_findings :
      Time → ComplianceRule → String → ℕ → RetentionPolicy → List ComplianceFinding × Bool
  retention_findings now rule path days keep_all = ([], true)
  retention_findings now rule path days (keep_years years) =
      if ltb days (required_days years)
      then (short_finding rule path years days ∷ [], false)
      else ([], true)
  retention_findings now rule path days (keep_until date) = elim (parse_date date) [
    | none ↦ ([], true)
    | some until ↦ (if ltb until (today now) then expired_finding rule path date ∷ [] else [], true)
  ]
  retention_findings now rule path days (custom expression) = ([], true)

  abbrev pub inc : ℕ → ℕ
  inc n = (n + 1) % 2 ^ 32

  -- A rule that applies and whose classification is not above that of the path.
  abbrev pub judge :
      Time → String → String → ℕ → ComplianceRule → ComplianceReport → ComplianceReport
  judge now path region days rule r =
      let (found, kept) = retention_findings now rule path days rule.retention in
      let passed = is_region_compliant rule region && kept in
      record r {
        findings = r.findings ++ region_finding rule path region ++ found;
        rules_passed = if passed then inc r.rules_passed else r.rules_passed;
        rules_failed = if passed then r.rules_failed else inc r.rules_failed;
      }

  unfoldable pub check_rule :
      Time → String → String → ℕ → ComplianceRule → ComplianceReport → ComplianceReport
  check_rule now path region days rule r =
      if not rule.enabled
      then r
      else if not (matches_path rule path)
      then r
      else let r' = record r { rules_checked = inc r.rules_checked } in
        if ltb (rank (from_path lowercase path)) (rank rule.classification)
        then record r' { rules_passed = inc r'.rules_passed }
        else judge now path region days rule r'

  unfoldable pub check_rules :
      Time → String → String → ℕ → List ComplianceRule → ComplianceReport → ComplianceReport
  unfolding check_rule
  check_rules now path region days [] r = r
  check_rules now path region days (rule ∷ rules) r =
      check_rules now path region days rules (check_rule now path region days rule r)

  abbrev pub begun : Time → ComplianceReport
  begun now = record {
    timestamp = now;
    overall_status = pass;
    findings = [];
    rules_checked = 0;
    rules_passed = 0;
    rules_failed = 0;
  }

  unfoldable pub check : ComplianceChecker → Time → String → String → ℕ → ComplianceReport
  unfolding check_rules
  check rules now path region days =
      let r = check_rules now path region days rules (begun now) in
      record r { overall_status = if ltb 0 r.rules_failed then fail else pass }

  classify_path : String → DataClassification
  classify_path path = from_path lowercase path
