-- ===== src/Devices/Sync.antt =====
-- The sync coordinator of crates/openvault-server/src/device_manager.rs.
use open_vault.Common.{
  ℕ, String, Bool, not, ◌&&◌, Option, none, some, List, if◌then◌else◌, ◌==◌, string_eq, filter,
  contains, is_empty, first, take, map,
}
use open_vault.Common.Sort.{greatest_first}
use open_vault.Vault.{Time}
use open_vault.Devices.{
  DeviceProfile, DeviceRegistry, online, status_eq, free, is_storage_low, in_group, list,
}

abbrev pub is_online : DeviceProfile → Bool
is_online d = d.status == online

unfoldable pub candidates : List String → List DeviceProfile → List DeviceProfile
candidates exclude devices =
    filter (λ (d : DeviceProfile). not (contains d.device_id exclude)) (filter is_online devices)

-- The candidates at the preferred location, or all where there are none.
unfoldable pub preferred : Option String → List DeviceProfile → List DeviceProfile
preferred none ds = ds
preferred (some loc) ds =
    let matches = filter (λ (d : DeviceProfile). d.location == loc) ds in
    if is_empty matches then ds else matches

unfoldable pub select_restore_source :
    Option String → List String → DeviceRegistry → Option DeviceProfile
unfolding candidates preferred list
select_restore_source location exclude r =
    let ds = candidates exclude (list r) in
    if is_empty ds then none else first (greatest_first free (preferred location ds))

-- The key of the sort: those in the group come before those that are not.
abbrev pub in_group_key : String → DeviceProfile → ℕ
in_group_key group d = if in_group group d then 1 else 0

abbrev pub grouped : Option String → List DeviceProfile → List DeviceProfile
grouped none ds = ds
grouped (some group) ds = greatest_first (in_group_key group) ds

abbrev pub is_target : DeviceProfile → Bool
is_target d = is_online d && not (is_storage_low d)

unfoldable pub schedule_backup : ℕ → Option String → DeviceRegistry → List String
unfolding list
schedule_backup target_count group r =
    map (λ (d : DeviceProfile). d.device_id)
      (take target_count (grouped group (filter is_target (list r))))

pub data DegradedStrategy : Type 0 where
  use_online : List DeviceProfile → DegradedStrategy
  all_offline : String → Option Time → DegradedStrategy
  no_devices : DegradedStrategy

-- An unknown heartbeat counts as the first of 1970.
abbrev pub seen_at : Time → DeviceProfile → Time
seen_at epoch d = elim d.last_heartbeat [ none ↦ epoch | some t ↦ t ]

abbrev pub fallback : Option DeviceProfile → DegradedStrategy
fallback none = no_devices
fallback (some d) = all_offline d.device_id d.last_heartbeat

unfoldable pub degraded_restore_strategy : Time → DeviceRegistry → DegradedStrategy
unfolding list
degraded_restore_strategy epoch r =
    let up = filter is_online (list r) in
    if is_empty up
    then fallback (first (greatest_first (seen_at epoch) (list r)))
    else use_online up
