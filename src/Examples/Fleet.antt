-- ===== src/Examples/Fleet.antt =====
-- A registry of two devices and a policy with an override.
use open_vault.Common.{eq_iff, ◌≢◌, ◌≡◌, ℕ, none, some, String, true, List, [], ◌∷◌, map}
use open_vault.Common.Map
use open_vault.Devices.{
  DeviceProfile, DeviceRegistry, pos, nas, busy, online, with_heartbeat_threshold, check_heartbeats,
}
use open_vault.Devices.Sync.{select_restore_source}
use open_vault.Devices.Mapper.{
  PolicyConfig, PolicyOverride, DevicePolicyMapper, policies_for_device, get_effective_config,
}
use open_vault.Devices.Heartbeats.{
  Call, registered, beat, used, run, over, status_in, status_at, heard, check_heartbeats-run,
}
use open_vault.Devices.Selection.{Best, select_restore_source-Best}
use open_vault.Devices.Effective.{policies_for_device-effective}

abbrev device : String → String → ℕ → DeviceProfile
device id location taken = record {
  device_id = id;
  name = id;
  kind = nas;
  location = location;
  status = busy;
  storage_capacity_bytes = 100;
  storage_used_bytes = taken;
  registered_at = 0;
  last_heartbeat = some 0;
  group = none;
  tags = [];
}

abbrev calls : List Call
calls =
    registered (device "a" "home" 10)
    ∷ registered (device "b" "work" 50)
    ∷ beat 90000000000 "b"
    ∷ used "a" 20
    ∷ []

abbrev registry : DeviceRegistry
registry = record {
  devices = ("a", device "a" "home" 10) ∷ ("b", device "b" "work" 50) ∷ [];
  heartbeat_threshold_secs = pos 60;
}

check_heartbeats-run_example :
    status_in "a" (check_heartbeats 100000000000 (run calls (with_heartbeat_threshold (pos 60)))).1
    ≡ over (status_at 100000000000 (pos 60)) (heard calls "a" none)
check_heartbeats-run_example = check_heartbeats-run (pos 60) calls 100000000000 "a"

abbrev up : DeviceRegistry
up = record registry {
  devices =
      ("a", record (device "a" "home" 10) { status = online })
      ∷ ("b", record (device "b" "work" 50) { status = online })
      ∷ [];
}

select_restore_source-Best_example :
    Best (some "work") [] (Map.values up.devices) (select_restore_source (some "work") [] up)
select_restore_source-Best_example = select_restore_source-Best (some "work") [] up

abbrev policy : String → PolicyConfig
policy id = record {
  policy_id = id;
  name = id;
  schedule = "daily";
  retention_days = 30;
  compression = true;
  encryption = true;
}

abbrev weekly : PolicyOverride
weekly = record {
  device_id = "a";
  policy_id = "p";
  schedule = some "weekly";
  retention_days = none;
  compression = none;
  encryption = none;
}

abbrev mapper : DevicePolicyMapper ℕ
mapper = record {
  policies = ("p", policy "p") ∷ ("q", policy "q") ∷ [];
  overrides = (("a", "p"), weekly) ∷ [];
  capacity_warnings = [];
}

abbrev policy_p : String
policy_p = "p"

differ : policy_p ≢ "q"
differ e = cc ((eq_iff policy_p "q").1 e)

policies_for_device-effective_example :
    map some (policies_for_device "a" mapper)
    ≡ get_effective_config "a" "p" mapper ∷ get_effective_config "a" "q" mapper ∷ []
policies_for_device-effective_example =
    policies_for_device-effective "a" mapper ((differ, tt), (tt, tt))
