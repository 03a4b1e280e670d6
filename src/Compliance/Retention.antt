-- ===== src/Compliance/Retention.antt =====
-- The retention manager of crates/openvault-core/src/compliance.rs.
use open_vault.Common.{
  ℕ, ◌+◌, ◌*◌, ◌%◌, ◌^◌, String, Bool, true, false, not, ◌&&◌, Option, none, some, List, [], ◌∷◌,
  ◌++◌, if◌then◌else◌, ltb, filter, is_empty, length,
}
use open_vault.Vault.{text, number, Message, Time}
use open_vault.Compliance.{
  DataClassification, ComplianceRule, RetentionPolicy, keep_all, keep_years, keep_until, custom,
  matches_path, day,
}

pub record RetentionRecord : Type 0 where
  pub id : String
  pub path : String
  pub created_at : Time
  pub classification : DataClassification
  pub size_bytes : ℕ

pub record RetentionSweepResult : Type 0 where
  pub scanned : ℕ
  pub expired : ℕ
  pub retained : ℕ
  pub freed_bytes : ℕ
  pub details : List Message

abbrev both : Option Bool → Option Bool → Option Bool
both none rest = none
both (some false) rest = some false
both (some true) rest = rest

-- `last` is the last instant that chrono represents.
module _ (parse_date : String → Option ℕ) (print_date : Time → String) (last : Time) where
  -- Whether a rule lets the record go; `none` means that the addition of the years panics. The date
  -- of a rule counts to its last second.
  abbrev pub releases : Time → Time → RetentionPolicy → Option Bool
  releases now created keep_all = some false
  releases now created (keep_years years) =
      let until = created + years * 365 * day in
      if ltb last until then none else some (not (ltb now until))
  releases now created (keep_until date) = elim (parse_date date) [
    | none ↦ some true
    | some until ↦ some (not (ltb now (until * day + 86399000000000)))
  ]
  releases now created (custom expression) = some false

  abbrev pub applies : RetentionRecord → ComplianceRule → Bool
  applies r rule = rule.enabled && matches_path rule r.path

  -- The loop over the rules, which the first that holds the record leaves.
  unfoldable pub all_release : Time → RetentionRecord → List ComplianceRule → Option Bool
  all_release now r [] = some true
  all_release now r (rule ∷ rules) =
      both (releases now r.created_at rule.retention) (all_release now r rules)

  unfoldable pub is_expired : List ComplianceRule → Time → RetentionRecord → Option Bool
  unfolding all_release
  is_expired rules now r =
      let applicable = filter (applies r) rules in
      if is_empty applicable then some false else all_release now r applicable

  -- The variables of the loop of `sweep`.
  pub record Sweep : Type 0 where
    pub ids : List String
    pub kept : ℕ
    pub freed : ℕ
    pub details : List Message

  abbrev pub describe : RetentionRecord → Message
  describe r =
      text "EXPIRED: "
      ∷ text r.id
      ∷ text " ("
      ∷ text r.path
      ∷ text ", "
      ∷ text (print_date r.created_at)
      ∷ text ") — "
      ∷ number r.size_bytes
      ∷ text " bytes"
      ∷ []

  abbrev pub after_test : RetentionRecord → Sweep → Option Bool → Option Sweep
  after_test r s none = none
  after_test r s (some true) = some (record s {
    freed = (s.freed + r.size_bytes) % 2 ^ 64;
    details = s.details ++ describe r ∷ [];
    ids = s.ids ++ r.id ∷ [];
  })
  after_test r s (some false) = some (record s { kept = (s.kept + 1) % 2 ^ 32 })

  -- One round of the loop of `sweep`, in which `freed_bytes` is a u64.
  unfoldable pub sweep_record : List ComplianceRule → Time → RetentionRecord → Sweep → Option Sweep
  sweep_record rules now r s = after_test r s (is_expired rules now r)

  unfoldable pub sweep_records :
      List ComplianceRule → Time → List RetentionRecord → Sweep → Option Sweep
  sweep_records rules now [] s = some s
  sweep_records rules now (r ∷ rs) s = elim (sweep_record rules now r s) [
    | none ↦ none
    | some s' ↦ sweep_records rules now rs s'
  ]

  abbrev pub result_of : List RetentionRecord → Sweep → RetentionSweepResult
  result_of records s = record {
    scanned = length records % 2 ^ 32;
    expired = length s.ids % 2 ^ 32;
    retained = s.kept;
    freed_bytes = s.freed;
    details = s.details;
  }

  unfoldable pub sweep :
      List ComplianceRule → Time → List RetentionRecord → Option RetentionSweepResult
  sweep rules now records =
      elim (sweep_records rules now records
        (record { ids = []; kept = 0; freed = 0; details = [] })) [
          | none ↦ none
          | some s ↦ some (result_of records s)
        ]
