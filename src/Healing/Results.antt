-- ===== src/Healing/Results.antt =====
-- The data of crates/openvault-core/src/healing.rs.
use open_vault.Common.{
  ℕ, ◌+◌, ◌%◌, ◌^◌, String, Bool, true, false, ◌&&◌, Option, none, some, List, [], ◌∷◌, ◌++◌, ltb,
  leb, nat_beq, string_eq,
}
use open_vault.Vault.{Message}

pub record HealingConfig : Type 0 where
  pub enabled : Bool
  pub check_interval_hours : ℕ
  pub max_heals_per_run : ℕ
  pub verify_after_heal : Bool

unfoldable pub default : HealingConfig
default = record {
  enabled = true;
  check_interval_hours = 24;
  max_heals_per_run = 0;
  verify_after_heal = true;
}

pub record FileCheckResult : Type 0 where
  pub path : String
  pub healthy : Bool
  pub expected_checksum : String
  pub actual_checksum : Option String
  pub error : Option Message

pub record ScanResult : Type 0 where
  pub snapshot_id : String
  pub files_scanned : ℕ
  pub files_healthy : ℕ
  pub files_corrupt : ℕ
  pub files_missing : ℕ
  pub checks : List FileCheckResult

unfoldable pub is_all_healthy : ScanResult → Bool
is_all_healthy r = nat_beq r.files_corrupt 0 && nat_beq r.files_missing 0

pub record FileHealingResult : Type 0 where
  pub path : String
  pub success : Bool
  pub error : Option Message

pub record HealingResult : Type 0 where
  pub snapshot_id : String
  pub files_healed : ℕ
  pub files_failed : ℕ
  pub recovery_source : Option String
  pub file_results : List FileHealingResult

pub is_fully_healed : HealingResult → Bool
is_fully_healed r = nat_beq r.files_failed 0 && ltb 0 r.files_healed

abbrev pub inc : ℕ → ℕ
inc n = (n + 1) % 2 ^ 32

-- What an attempt to heal one file comes to; a source that served is named where the code names it.
pub data Attempt : Type 0 where
  healed : Option String → Attempt
  failed : Message → Attempt

abbrev pub named : Option String → Option String → Option String
named none old = old
named (some source) old = some source

unfoldable pub record_attempt : String → Attempt → HealingResult → HealingResult
record_attempt name (healed source) r = record r {
  files_healed = inc r.files_healed;
  recovery_source = named source r.recovery_source;
  file_results = r.file_results ++ record { path = name; success = true; error = none } ∷ [];
}
record_attempt name (failed why) r = record r {
  files_failed = inc r.files_failed;
  file_results = r.file_results ++ record { path = name; success = false; error = some why } ∷ [];
}

abbrev pub heals_after : Attempt → ℕ → ℕ
heals_after (healed source) heals = inc heals
heals_after (failed why) heals = heals

unfoldable pub limit_reached : HealingConfig → ℕ → Bool
limit_reached config heals = ltb 0 config.max_heals_per_run && leb config.max_heals_per_run heals
