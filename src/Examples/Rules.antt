-- ===== src/Examples/Rules.antt =====
-- Rules for a path in a region, and records under a rule of one year.
use open_vault.Common.{
  ◌≡◌, ◌<◌, ◌^◌, ◌+◌, ◌*◌, ℕ, Option, none, some, String, true, List, [], ◌∷◌, if◌then◌else◌,
  length, filter, any, map, arith,
}
use open_vault.Vault.{Time}
use open_vault.Compliance.{
  matches_path, ComplianceRule, RetentionPolicy, keep_years, keep_all, public, check, fail, pass,
}
use open_vault.Compliance.Verdict.{applicable, violated, check-verdict}
use open_vault.Compliance.Retention.{RetentionRecord, RetentionSweepResult, sweep, describe}
use open_vault.Compliance.Sweep.{lapsed, total_size, sweep-lapsed}

abbrev same : String → String
same s = s

abbrev no_date : String → Option ℕ
no_date s = none

abbrev rule : String → RetentionPolicy → ComplianceRule
rule id kept = record {
  rule_id = id;
  name = id;
  description = "";
  classification = public;
  retention = kept;
  allowed_regions = "eu" ∷ [];
  path_patterns = [];
  enabled = true;
}

abbrev rules : List ComplianceRule
rules = rule "years" (keep_years 1) ∷ rule "all" keep_all ∷ []

check-verdict_example :
    let report = check same no_date rules 0 "/data/a" "EU" 30 in
    (report.rules_checked ≡ length (filter (applicable "/data/a") rules))
    × (report.rules_passed + report.rules_failed ≡ report.rules_checked)
    × (report.rules_failed ≡ length (filter (violated same no_date 0 "/data/a" "EU" 30) rules))
    × (report.overall_status
        ≡ (if any (violated same no_date 0 "/data/a" "EU" 30) rules then fail else pass))
check-verdict_example =
    check-verdict same no_date 0 "/data/a" "EU" 30 rules (omega arith) (omega arith, (tt, tt))

abbrev print : Time → String
print t = "2024-01-01"

abbrev backup : String → Time → RetentionRecord
backup id created = record {
  id = id;
  path = "/data/a";
  created_at = created;
  classification = public;
  size_bytes = 5;
}

-- The end of the year 262142, in nanoseconds from 1970.
abbrev last : Time
last = 8210266876799 * 1000000000

abbrev backups : List RetentionRecord
backups = backup "old" 0 ∷ backup "new" 31536000000000000 ∷ []

abbrev one_year : List ComplianceRule
one_year = rule "years" (keep_years 1) ∷ []

few_bytes :
    total_size no_date print last one_year 31536000000000001
      (filter (lapsed no_date print last one_year 31536000000000001) backups)
    < 2 ^ 64
unfolding matches_path
few_bytes = omega arith

sweep-lapsed_example :
    let gone = filter (lapsed no_date print last one_year 31536000000000001) backups in
    (result : RetentionSweepResult) × (sweep no_date print last one_year 31536000000000001 backups
      ≡ some result)
    × (result.scanned ≡ 2)
    × (result.expired ≡ length gone)
    × (result.expired + result.retained ≡ result.scanned)
    × (result.freed_bytes ≡ total_size no_date print last one_year 31536000000000001 gone)
    × (result.details ≡ map (describe no_date print last) gone)
sweep-lapsed_example =
    sweep-lapsed no_date print last one_year 31536000000000001 backups
      ((omega arith, tt), ((omega arith, tt), tt)) (omega arith) few_bytes
