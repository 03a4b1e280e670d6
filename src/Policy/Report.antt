-- ===== src/Policy/Report.antt =====
-- The data of crates/openvault-core/src/policy.rs, the three checks, and the report on what a
-- survey has found.
use open_vault.Common.{
  ℕ, ◌-◌, ◌%◌, ◌^◌, String, Bool, true, false, not, ◌&&◌, Option, none, some, List, [], ◌∷◌, ◌++◌,
  length, is_empty, map, find, if◌then◌else◌, ltb, contains, string_eq,
}
use open_vault.Vault.{text, number, Message}

pub record Policy321 : Type 0 where
  pub min_copies : ℕ
  pub min_media_types : ℕ
  pub require_offsite : Bool
  pub offsite_backends : List String
  pub auto_remediate : Bool
  pub name : String

pub default : Policy321
default = record {
  min_copies = 3;
  min_media_types = 2;
  require_offsite = true;
  offsite_backends = "s3" ∷ "r2" ∷ "openlink" ∷ [];
  auto_remediate = false;
  name = "3-2-1-default";
}

pub strict : Policy321
unfolding default
strict = record default { name = "3-2-1-strict" }

pub relaxed : Policy321
relaxed = record {
  min_copies = 1;
  min_media_types = 1;
  require_offsite = false;
  offsite_backends = [];
  auto_remediate = false;
  name = "3-2-1-relaxed";
}

pub data ViolationType : Type 0 where
  insufficient_copies insufficient_media_types no_offsite_copy : ViolationType

pub data RemediationType : Type 0 where
  copy_to_backend create_offsite_copy create_backup : RemediationType

pub record PolicyViolation : Type 0 where
  pub violation_type : ViolationType
  pub message : Message

pub record RemediationAction : Type 0 where
  pub action_type : RemediationType
  pub description : Message
  pub target_backend : Option String

pub record PolicyHealth : Type 0 where
  pub source : String
  pub healthy : Bool
  pub copies : ℕ
  pub copies_required : ℕ
  pub media_types : ℕ
  pub media_types_required : ℕ
  pub has_offsite : Bool
  pub offsite_required : Bool
  pub backend_names : List String
  pub violations : List PolicyViolation
  pub remediation : List RemediationAction

-- The `join("; ")` of the messages.
join_messages : List Message → Message
join_messages [] = []
join_messages (m ∷ []) = m
join_messages (m ∷ n ∷ ms) = m ++ text "; " ∷ join_messages (n ∷ ms)

pub summary : PolicyHealth → Message
unfolding join_messages
summary h =
    if h.healthy
    then text "✅ Policy satisfied: "
      ∷ number h.copies
      ∷ text "/"
      ∷ number h.copies_required
      ∷ text " copies, "
      ∷ number h.media_types
      ∷ text "/"
      ∷ number h.media_types_required
      ∷ text " media types, offsite="
      ∷ text (if h.has_offsite then "yes" else "n/a")
      ∷ []
    else text "❌ Policy violated: "
      ∷ number h.copies
      ∷ text " copies, "
      ∷ number h.media_types
      ∷ text " media types, offsite="
      ∷ text (if h.has_offsite then "yes" else "no")
      ∷ text ". Issues: "
      ∷ join_messages (map (λ (v : PolicyViolation). v.message) h.violations)

abbrev pub or_else : String → Option String → String
or_else d none = d
or_else d (some s) = s

-- The three variables of the loop of `check_health`.
pub record Survey : Type 0 where
  pub backend_names : List String
  pub total_copies : ℕ
  pub has_offsite : Bool

-- What one of the three checks pushes.
pub record Checked : Type 0 where
  pub violations : List PolicyViolation
  pub remediation : List RemediationAction

abbrev pub passed : Checked
passed = record { violations = []; remediation = [] }

abbrev pub failed : ViolationType → Message → RemediationType → Message → Option String → Checked
failed what why action how target = record {
  violations = record { violation_type = what; message = why } ∷ [];
  remediation = record { action_type = action; description = how; target_backend = target } ∷ [];
}

unfoldable pub check_copies : Policy321 → Survey → Checked
check_copies policy sv =
    if ltb sv.total_copies policy.min_copies
    then failed insufficient_copies
        (text "Only "
          ∷ number sv.total_copies
          ∷ text " copies exist, need "
          ∷ number policy.min_copies
          ∷ [])
        create_backup
        (text "Create "
          ∷ number (policy.min_copies - sv.total_copies)
          ∷ text " additional backup copies"
          ∷ [])
        none
    else passed

-- The names are fewer than 2^32 by the length of the list; the cast to u32 is written out.
unfoldable pub media_types : Survey → ℕ
media_types sv = length sv.backend_names % 2 ^ 32

unfoldable pub check_media : Policy321 → Survey → Checked
unfolding media_types
check_media policy sv =
    let suggested = find (λ b. not (contains b sv.backend_names)) ("s3" ∷ "r2" ∷ "local" ∷ []) in
    if ltb (media_types sv) policy.min_media_types
    then failed insufficient_media_types
        (text "Only "
          ∷ number (media_types sv)
          ∷ text " media types used, need "
          ∷ number policy.min_media_types
          ∷ [])
        copy_to_backend
        (text "Add a backup on a different storage type (suggested: "
          ∷ text (or_else "any new backend" suggested)
          ∷ text ")"
          ∷ [])
        suggested
    else passed

unfoldable pub check_offsite : Policy321 → Survey → Checked
check_offsite policy sv =
    let suggested = find (λ b. not (contains b sv.backend_names)) policy.offsite_backends in
    if policy.require_offsite && not sv.has_offsite
    then failed no_offsite_copy (text "No offsite backup copy found" ∷ []) create_offsite_copy
        (text "Create an offsite backup (suggested: "
          ∷ text (or_else "s3 or r2" suggested)
          ∷ text ")"
          ∷ [])
        suggested
    else passed

unfoldable pub health_of : Policy321 → String → Survey → PolicyHealth
unfolding check_copies check_media check_offsite media_types
health_of policy source sv =
    let a = check_copies policy sv in
    let b = check_media policy sv in
    let c = check_offsite policy sv in
    let found = a.violations ++ b.violations ++ c.violations in
    record {
      source = source;
      healthy = is_empty found;
      copies = sv.total_copies;
      copies_required = policy.min_copies;
      media_types = media_types sv;
      media_types_required = policy.min_media_types;
      has_offsite = sv.has_offsite;
      offsite_required = policy.require_offsite;
      backend_names = sv.backend_names;
      violations = found;
      remediation = a.remediation ++ b.remediation ++ c.remediation;
    }
