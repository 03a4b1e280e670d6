-- ===== src/Examples/Tenants.antt =====
-- Tenants and access control at concrete inputs.
use open_vault.Common.{◌≡◌, none, some, String, List, [], ◌∷◌}
use open_vault.Vault.{is_ok}
use open_vault.Tenant
use open_vault.Tenant.{
  Tenant, TenantUsage, TenantManager, TenantQuota, create_tenant, new_tenant, check_quota,
  check_tenant_quota, get_tenant, get_usage, UserAccess, operator, viewer, backup, check,
}
use open_vault.Tenant.Quota.{start, after, created, check_tenant_quota-Reachable}
use open_vault.Tenant.Access.{
  granted, revoked, Action, run, empty_control, last_word, allows, check-run,
}

abbrev tenant : Tenant
tenant = record (new_tenant "t1" 0 "Acme") {
  quota = record { max_storage_bytes = 100; max_files = 0; max_copies = 3 };
}

abbrev used : TenantUsage
used = record { storage_bytes = 101; file_count = 7; copy_count = 3 }

abbrev limits : TenantQuota
limits = record { max_storage_bytes = 100; max_files = 0; max_copies = 3 }

abbrev manager : TenantManager
manager = (create_tenant "t1" 0 "Acme" limits Tenant.new).1

check_tenant_quota-Reachable_example :
    (is_ok (get_usage manager "t1") ≡ is_ok (get_tenant manager "t1"))
    × (is_ok (check_tenant_quota manager "t1") ≡ is_ok (get_tenant manager "t1"))
check_tenant_quota-Reachable_example =
    check_tenant_quota-Reachable manager "t1"
      (after Tenant.new manager start (created "t1" 0 "Acme" limits Tenant.new))

abbrev ann : String → UserAccess
ann tenant_id = record {
  user_id = "ann";
  tenant_id = tenant_id;
  role = operator;
  path_restriction = some "/data/";
}

-- Ann has access to one tenant, and then to another.
abbrev actions : List Action
actions = granted (ann "t1") ∷ granted (ann "t2") ∷ revoked "bob" ∷ []

check-run_example :
    check (run actions empty_control) "ann" backup "/data/a" "t1"
    ≡ allows (last_word actions "ann" none) backup "/data/a" "t1"
check-run_example = check-run actions "ann" backup "/data/a" "t1"
