-- ===== src/Audit/Entry.antt =====
-- The entries of crates/openvault-core/src/audit.rs, and the bytes that their hash is taken of.
use Prim.Native.Nat.{Ordering}
use Prim.Native.String.{compare as compare_text}
use open_vault.Common.{
  ℕ, zero, suc, ◌/◌, ◌%◌, String, [], ◌∷◌, ◌++◌, string_eq, PartialEq, derived_eq, String-discrete,
  concat, as_bytes,
}
use open_vault.Common.Map.{Map}
use open_vault.Vault.{Bytes, Time}

pub data AuditOperation : Type 0 where
  backup_started backup_completed backup_failed restore_started restore_completed restore_failed
        delete_snapshot policy_created policy_updated policy_deleted self_heal_started
        self_heal_completed self_heal_failed tenant_created tenant_updated tenant_deleted
        compliance_check compliance_violation quota_warning login logout :
      AuditOperation
  custom : String → AuditOperation

-- `Display`, which uses the names that `{:?}` prints.
unfoldable pub operation_name : AuditOperation → String
operation_name backup_started = "BackupStarted"
operation_name backup_completed = "BackupCompleted"
operation_name backup_failed = "BackupFailed"
operation_name restore_started = "RestoreStarted"
operation_name restore_completed = "RestoreCompleted"
operation_name restore_failed = "RestoreFailed"
operation_name delete_snapshot = "DeleteSnapshot"
operation_name policy_created = "PolicyCreated"
operation_name policy_updated = "PolicyUpdated"
operation_name policy_deleted = "PolicyDeleted"
operation_name self_heal_started = "SelfHealStarted"
operation_name self_heal_completed = "SelfHealCompleted"
operation_name self_heal_failed = "SelfHealFailed"
operation_name tenant_created = "TenantCreated"
operation_name tenant_updated = "TenantUpdated"
operation_name tenant_deleted = "TenantDeleted"
operation_name compliance_check = "ComplianceCheck"
operation_name compliance_violation = "ComplianceViolation"
operation_name quota_warning = "QuotaWarning"
operation_name login = "Login"
operation_name logout = "Logout"
operation_name (custom s) = concat "custom:" s

pub data AuditResult : Type 0 where
  success failure partial denied : AuditResult

result_name : AuditResult → String
result_name success = "Success"
result_name failure = "Failure"
result_name partial = "Partial"
result_name denied = "Denied"

abbrev pub AuditResult-discrete : Discrete AuditResult
AuditResult-discrete = hlevel

instance abbrev pub result_eq : PartialEq AuditResult
result_eq = derived_eq AuditResult-discrete

abbrev pub AuditOperation-discrete : Discrete AuditOperation
AuditOperation-discrete = hlevel String-discrete

instance abbrev pub operation_eq : PartialEq AuditOperation
operation_eq = derived_eq AuditOperation-discrete

pub record AuditEntry : Type 0 where
  pub seq : ℕ
  pub timestamp : Time
  pub user_id : String
  pub operation : AuditOperation
  pub target : String
  pub result : AuditResult
  pub metadata : Map String
  pub hash : String
  pub prev_hash : String

-- `u64::to_le_bytes`.
pub le_bytes : ℕ → ℕ → Bytes
le_bytes zero n = []
le_bytes (suc width) n = n % 256 ∷ le_bytes width (n / 256)

-- The metadata in the order of its keys, which are different.
insert_sorted : String → String → Map String → Map String
insert_sorted k v [] = (k, v) ∷ []
insert_sorted k v ((j, w) ∷ m) = elim (compare_text k j) [
  | Ordering.gt ↦ (j, w) ∷ insert_sorted k v m
  | _ ↦ (k, v) ∷ (j, w) ∷ m
]

sort_keys : Map String → Map String
sort_keys [] = []
sort_keys ((k, v) ∷ m) = insert_sorted k v (sort_keys m)

metadata_bytes : Map String → Bytes
metadata_bytes [] = []
metadata_bytes ((k, v) ∷ m) = as_bytes k ++ (as_bytes v ++ metadata_bytes m)

-- All that the hasher is given, one after another.
unfoldable pub hashed_bytes : (Time → String) → AuditEntry → Bytes
unfolding le_bytes result_name sort_keys insert_sorted metadata_bytes operation_name
hashed_bytes to_rfc3339 e =
    le_bytes 8 e.seq
    ++ (as_bytes (to_rfc3339 e.timestamp)
        ++ (as_bytes e.user_id
            ++ (as_bytes (operation_name e.operation)
                ++ (as_bytes e.target
                    ++ (as_bytes (result_name e.result)
                        ++ (metadata_bytes (sort_keys e.metadata) ++ as_bytes e.prev_hash))))))
