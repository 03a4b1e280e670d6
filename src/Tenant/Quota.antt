-- ===== src/Tenant/Quota.antt =====
-- Quotas, and the two tables of the manager.
use open_vault.Common.{
  ℕ, ◌≤◌, ◌≡◌, ◌⊎◌, ◌↔◌, refl, inl, inr, String, true, false, Option, some, arith, if◌then◌else◌,
  ◌==◌, string_eq, eq_iff, Option-cases,
}
use open_vault.Common.Map
use open_vault.Common.Map.{Map, get-insert, get-remove}
use open_vault.Vault.{Time, is_ok}
use open_vault.Tenant.{
  no_usage, or_old, Tenant, TenantQuota, TenantUsage, TenantManager, check_quota, new,
  create_tenant, new_tenant, update_tenant, delete_tenant, update_usage, get_tenant, get_usage,
  check_tenant_quota,
}

-- An amount within a bound, where 0 means that there is none.
abbrev pub Within : ℕ → ℕ → Type 0
Within amount bound = (bound ≡ 0) ⊎ (amount ≤ bound)

-- A usage is within the quota exactly where each of the three amounts is at most its bound or the
-- bound is 0, and exactly then no violation is listed.
pub check_quota-Within :
    (tenant : Tenant) (used : TenantUsage)
    → ((check_quota tenant used).within_quota ≡ true) ↔ (
        Within used.storage_bytes tenant.quota.max_storage_bytes
        × Within used.file_count tenant.quota.max_files
        × Within used.copy_count tenant.quota.max_copies)
unfolding check_quota
check_quota-Within tenant used = ground arith

-- Each tenant has a usage, and no other usage is kept.
pub IsManager : TenantManager → Type 0
IsManager m = (id : String) → Map.contains_key id m.usage ≡ Map.contains_key id m.tenants

contains_key-insert :
    {V : Type 0} (k j : String) (v : V) (m : Map V)
    → Map.contains_key j (Map.insert k v m) ≡ (if k == j then true else Map.contains_key j m)
unfolding Map.contains_key
contains_key-insert k j v m = ground (arith, get-insert k j v m)

contains_key-get :
    {V : Type 0} (k : String) (m : Map V) (v : V)
    → Map.get k m ≡ some v
    → Map.contains_key k m ≡ true
unfolding Map.contains_key
contains_key-get k m v e = ground arith

contains_key-remove :
    {V : Type 0} (k j : String) (m : Map V)
    → Map.contains_key j (Map.remove k m) ≡ (if k == j then false else Map.contains_key j m)
unfolding Map.contains_key
contains_key-remove k j m = ground (arith, get-remove k j m)

-- The operations that change the manager.
pub data Change : TenantManager → TenantManager → Type 0 where
  created :
      (uuid : String) (now : Time) (title : String) (limits : TenantQuota) (m : TenantManager)
      → Change m (create_tenant uuid now title limits m).1
  updated :
      (now : Time) (id : String) (title : Option String) (limits : Option TenantQuota)
      (m : TenantManager)
      → Change m (update_tenant now id title limits m).1
  deleted : (id : String) (m : TenantManager) → Change m (delete_tenant id m).1
  used :
      (id : String) (usage : TenantUsage) (m : TenantManager) → Change m (update_usage id usage m).1

-- What a manager becomes by any number of changes.
pub data Reachable : TenantManager → Type 0 where
  start : Reachable new
  after : (m m' : TenantManager) → Reachable m → Change m m' → Reachable m'

create_tenant-IsManager :
    (uuid : String) (now : Time) (title : String) (limits : TenantQuota) (m : TenantManager)
    → IsManager m
    → IsManager (create_tenant uuid now title limits m).1
unfolding create_tenant IsManager new_tenant
create_tenant-IsManager uuid now title limits m inv id = ground (
  arith,
  inv id,
  contains_key-insert uuid id (record (new_tenant uuid now title) { quota = limits }) m.tenants,
  contains_key-insert uuid id no_usage m.usage,
)

update_tenant-IsManager :
    (now : Time) (key : String) (title : Option String) (limits : Option TenantQuota)
    (m : TenantManager)
    → IsManager m
    → IsManager (update_tenant now key title limits m).1
unfolding update_tenant IsManager
update_tenant-IsManager now key title limits m inv id =
    elim (Option-cases (Map.get key m.tenants)) [
      | inl missing ↦ ground (arith, inv id)
      | inr (tenant, there) ↦
          let tenant' : Tenant = record tenant {
            name = or_old title tenant.name;
            quota = or_old limits tenant.quota;
            updated_at = now;
          } in
          let known : Map.contains_key key m.tenants ≡ true =
            contains_key-get key m.tenants tenant there in
          ground (arith, inv id, known, eq_iff key id, contains_key-insert key id tenant' m.tenants)
    ]

delete_tenant-IsManager :
    (key : String) (m : TenantManager) → IsManager m → IsManager (delete_tenant key m).1
unfolding delete_tenant IsManager
delete_tenant-IsManager key m inv id =
    ground (arith, inv id, contains_key-remove key id m.tenants, contains_key-remove key id m.usage)

update_usage-IsManager :
    (key : String) (usage : TenantUsage) (m : TenantManager)
    → IsManager m
    → IsManager (update_usage key usage m).1
unfolding update_usage IsManager
update_usage-IsManager key usage m inv id =
    ground (arith, inv id, eq_iff key id, contains_key-insert key id usage m.usage)

Change-IsManager : (m m' : TenantManager) → Change m m' → IsManager m → IsManager m'
Change-IsManager _ _ (created uuid now title limits m) inv =
    create_tenant-IsManager uuid now title limits m inv
Change-IsManager _ _ (updated now key title limits m) inv =
    update_tenant-IsManager now key title limits m inv
Change-IsManager _ _ (deleted key m) inv = delete_tenant-IsManager key m inv
Change-IsManager _ _ (used key usage m) inv = update_usage-IsManager key usage m inv

Reachable-IsManager : (m : TenantManager) → Reachable m → IsManager m
unfolding IsManager new Map.contains_key
Reachable-IsManager _ start id = refl
Reachable-IsManager _ (after m m' r c) id = Change-IsManager m m' c (Reachable-IsManager m r) id

-- In every manager that the operations reach from the empty one, exactly the tenants that exist
-- have a usage, and checking a quota succeeds exactly for them: no tenant is without a usage, and
-- none outlives its tenant.
pub check_tenant_quota-Reachable :
    (m : TenantManager) (id : String)
    → Reachable m
    → (is_ok (get_usage m id) ≡ is_ok (get_tenant m id))
      × (is_ok (check_tenant_quota m id) ≡ is_ok (get_tenant m id))
unfolding get_tenant get_usage check_tenant_quota Map.contains_key IsManager
check_tenant_quota-Reachable m id r = ground (arith, Reachable-IsManager m r id)
