-- ===== src/Examples/Policies.antt =====
-- The policy at concrete storages.
use open_vault.Common.{
  ◌≤◌, ◌≡◌, ◌↔◌, refl, none, true, false, not, ◌||◌, List, [], ◌∷◌, arith, length, filter, any,
  is_empty, string_eq,
}
use open_vault.Vault.{Snapshot, full, ok}
use open_vault.Policy.{
  Policy321, PolicyHealth, survey, observe, health_of, check_copies, check_media, check_offsite,
  media_types, check_health, remediate, copy_missing, copy_snapshot, copy_entries,
}
use open_vault.Policy.Surveyed.{has_copy, is_offsite, backends}
use open_vault.Policy.Health.{Suggested, check_health-healthy}
use open_vault.Policy.Copies.{Remediated, missing, remediate-Remediated}
use open_vault.Examples.Memory.{Memory, memory, memory-StorageLaws, empty}

abbrev snapshot : Snapshot
snapshot = record {
  id = "snap";
  created_at = 0;
  strategy = full;
  source = "/data";
  storage_backend = "local";
  entries = record { path = "a"; size = 2; mtime = 0; checksum = "" } ∷ [];
  parent_id = none;
  total_size = 2;
}

abbrev local : Memory
local =
    (memory.store_file (memory.store_snapshot (empty "local") snapshot).1 "snap" "a" (1 ∷ 2 ∷ [])).1

abbrev storages : List Memory
storages = local ∷ empty "s3" ∷ []

abbrev policy : Policy321
policy = record {
  min_copies = 3;
  min_media_types = 2;
  require_offsite = true;
  offsite_backends = "s3" ∷ [];
  auto_remediate = false;
  name = "strict";
}

abbrev health : PolicyHealth
health =
    health_of policy "/data"
      (record { backend_names = "local" ∷ []; total_copies = 1; has_offsite = false })

checked : check_health memory policy "/data" storages ≡ ok health
unfolding check_health survey observe health_of check_copies check_media check_offsite media_types
checked = refl

ill : health.healthy ≡ false
unfolding health_of check_copies check_media check_offsite media_types
ill = refl

check_health-healthy_example :
    ((health.healthy ≡ true) ↔ (
      (policy.min_copies ≤ length (filter (has_copy memory policy "/data") storages))
      × (policy.min_media_types ≤ length (backends memory policy "/data" storages))
      × ((not policy.require_offsite || any (is_offsite memory policy "/data") storages) ≡ true)))
    × (length health.remediation ≡ length health.violations)
    × (health.healthy ≡ is_empty health.violations)
    × Suggested memory policy "/data" storages health.remediation
check_health-healthy_example =
    check_health-healthy memory policy "/data" storages health (omega arith) checked

copied : (remediate memory policy "/data" local (empty "s3" ∷ [])).0 ≡ ok 1
unfolding remediate check_health survey observe health_of check_copies check_media check_offsite
    media_types copy_missing copy_snapshot copy_entries
copied = refl

remediate-Remediated_example :
    (1 ≡ missing memory memory-StorageLaws local snapshot "/data" (empty "s3" ∷ []))
    × Remediated memory memory-StorageLaws local snapshot "/data"
        (empty "s3" ∷ [])
        (remediate memory policy "/data" local (empty "s3" ∷ [])).1
remediate-Remediated_example =
    remediate-Remediated memory memory-StorageLaws local snapshot "/data" policy (empty "s3" ∷ [])
      health 1 (omega arith) refl checked ill copied
