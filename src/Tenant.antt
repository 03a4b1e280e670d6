-- ===== src/Tenant.antt =====
-- crates/openvault-core/src/tenant.rs: tenants with quotas, and access control by role. A fresh
-- UUID and the clock are arguments of the operations that take one.
pub mod Quota
pub mod Access
use open_vault.Common.{
  ℕ, String, Bool, true, false, not, ◌&&◌, ◌||◌, Option, none, some, List, [], ◌∷◌, ◌++◌,
  if◌then◌else◌, ltb, ◌==◌, string_eq, PartialEq, derived_eq, contains, is_empty, filter, concat,
  starts_with, contains_text,
}
use open_vault.Common.Map
use open_vault.Common.Map.{Map}
use open_vault.Vault.{text, Message, Time, VaultError, VaultResult, ok, err}

pub record TenantQuota : Type 0 where
  pub max_storage_bytes : ℕ
  pub max_files : ℕ
  pub max_copies : ℕ

pub record TenantUsage : Type 0 where
  pub storage_bytes : ℕ
  pub file_count : ℕ
  pub copy_count : ℕ

abbrev pub no_quota : TenantQuota
no_quota = record { max_storage_bytes = 0; max_files = 0; max_copies = 0 }

abbrev pub no_usage : TenantUsage
no_usage = record { storage_bytes = 0; file_count = 0; copy_count = 0 }

pub record Tenant : Type 0 where
  pub tenant_id : String
  pub name : String
  pub quota : TenantQuota
  pub policy_overrides : Map String
  pub created_at : Time
  pub updated_at : Time
  pub enabled : Bool

pub data QuotaKind : Type 0 where
  storage files copies : QuotaKind

pub record QuotaViolation : Type 0 where
  pub kind : QuotaKind
  pub used : ℕ
  pub limit : ℕ

pub record QuotaResult : Type 0 where
  pub within_quota : Bool
  pub violations : List QuotaViolation

unfoldable pub new_tenant : String → Time → String → Tenant
new_tenant uuid now title = record {
  tenant_id = uuid;
  name = title;
  quota = no_quota;
  policy_overrides = [];
  created_at = now;
  updated_at = now;
  enabled = true;
}

abbrev exceeded : QuotaKind → ℕ → ℕ → List QuotaViolation
exceeded what amount bound =
    if ltb 0 bound && ltb bound amount
    then record { kind = what; used = amount; limit = bound } ∷ []
    else []

unfoldable pub check_quota : Tenant → TenantUsage → QuotaResult
check_quota tenant usage =
    let found =
      exceeded storage usage.storage_bytes tenant.quota.max_storage_bytes
      ++ exceeded files usage.file_count tenant.quota.max_files
      ++ exceeded copies usage.copy_count tenant.quota.max_copies in
    record { within_quota = is_empty found; violations = found }

pub record TenantManager : Type 0 where
  pub tenants : Map Tenant
  pub usage : Map TenantUsage

unfoldable pub new : TenantManager
new = record { tenants = []; usage = [] }

pub not_found : String → VaultError
not_found tenant_id = VaultError.config (text "Tenant " ∷ text tenant_id ∷ text " not found" ∷ [])

abbrev pub ok_or {ℓ} : {A : Type ℓ} → VaultError → Option A → VaultResult A
ok_or e none = err e
ok_or e (some a) = ok a

unfoldable pub create_tenant :
    String → Time → String → TenantQuota → TenantManager → VaultResult Tenant × TenantManager
unfolding new_tenant
create_tenant uuid now title limits m =
    let tenant : Tenant = record (new_tenant uuid now title) { quota = limits } in
    (
      ok tenant,
      record {
        tenants = Map.insert tenant.tenant_id tenant m.tenants;
        usage = Map.insert tenant.tenant_id no_usage m.usage;
      },
    )

unfoldable pub get_tenant : TenantManager → String → VaultResult Tenant
get_tenant m tenant_id = ok_or (not_found tenant_id) (Map.get tenant_id m.tenants)

abbrev pub or_old {ℓ} : {A : Type ℓ} → Option A → A → A
or_old none a = a
or_old (some b) a = b

pub update_tenant :
    Time
    → String
    → Option String
    → Option TenantQuota
    → TenantManager
    → VaultResult Tenant × TenantManager
update_tenant now tenant_id title limits m = elim (Map.get tenant_id m.tenants) [
  | none ↦ (err (not_found tenant_id), m)
  | some tenant ↦
      let tenant' : Tenant = record tenant {
        name = or_old title tenant.name;
        quota = or_old limits tenant.quota;
        updated_at = now;
      } in
      (ok tenant', record m { tenants = Map.insert tenant_id tenant' m.tenants })
]

pub delete_tenant : String → TenantManager → VaultResult (Unit {0}) × TenantManager
delete_tenant tenant_id m = elim (Map.get tenant_id m.tenants) [
  | none ↦ (err (not_found tenant_id), m)
  | some tenant ↦ (
    ok tt,
    record { tenants = Map.remove tenant_id m.tenants; usage = Map.remove tenant_id m.usage },
  )
]

pub list_tenants : TenantManager → List Tenant
list_tenants m = Map.values m.tenants

unfoldable pub get_usage : TenantManager → String → VaultResult TenantUsage
get_usage m tenant_id = ok_or (not_found tenant_id) (Map.get tenant_id m.usage)

unfoldable pub update_usage :
    String → TenantUsage → TenantManager → VaultResult (Unit {0}) × TenantManager
update_usage tenant_id used m =
    if not (Map.contains_key tenant_id m.tenants)
    then (err (not_found tenant_id), m)
    else (ok tt, record m { usage = Map.insert tenant_id used m.usage })

unfoldable pub check_tenant_quota : TenantManager → String → VaultResult QuotaResult
unfolding get_tenant get_usage check_quota
check_tenant_quota m tenant_id = elim (get_tenant m tenant_id) [
  | err e ↦ err e
  | ok tenant ↦ elim (get_usage m tenant_id) [
    | err e ↦ err e
    | ok used ↦ ok (check_quota tenant used)
  ]
]

pub is_path_owned : String → String → Bool
is_path_owned tenant_id path =
    starts_with path (concat "/tenants/" (concat tenant_id "/"))
    || not (contains_text path "/tenants/")

pub data Role : Type 0 where
  admin operator viewer : Role

pub data Permission : Type 0 where
  backup restore delete policy administer : Permission

abbrev pub Permission-discrete : Discrete Permission
Permission-discrete = hlevel

instance abbrev pub permission_eq : PartialEq Permission
permission_eq = derived_eq Permission-discrete

pub role_permissions : Role → List Permission
role_permissions admin = backup ∷ restore ∷ delete ∷ policy ∷ administer ∷ []
role_permissions operator = backup ∷ restore ∷ delete ∷ []
role_permissions viewer = restore ∷ []

pub record UserAccess : Type 0 where
  pub user_id : String
  pub tenant_id : String
  pub role : Role
  pub path_restriction : Option String

pub has_permission : UserAccess → Permission → Bool
unfolding role_permissions
has_permission access perm = contains perm (role_permissions access.role)

pub can_access_path : UserAccess → String → Bool
can_access_path access path = elim access.path_restriction [
  | some prefix ↦ starts_with path prefix
  | none ↦ true
]

pub record AccessControl : Type 0 where
  pub entries : Map UserAccess

pub grant : UserAccess → AccessControl → AccessControl
grant access ac = record { entries = Map.insert access.user_id access ac.entries }

pub revoke : String → AccessControl → Bool × AccessControl
revoke user ac = (Map.contains_key user ac.entries, record { entries = Map.remove user ac.entries })

pub check : AccessControl → String → Permission → String → String → Bool
unfolding has_permission can_access_path
check ac user perm path tenant = elim (Map.get user ac.entries) [
  | some access ↦
      access.tenant_id == tenant && has_permission access perm && can_access_path access path
  | none ↦ false
]

pub get_user : AccessControl → String → Option UserAccess
get_user ac user = Map.get user ac.entries

pub list_tenant_users : AccessControl → String → List UserAccess
list_tenant_users ac tenant =
    filter (λ (a : UserAccess). a.tenant_id == tenant) (Map.values ac.entries)
