-- ===== src/Devices.antt =====
-- crates/openvault-server/src/device_manager.rs: the registry of devices and their heartbeats. The
-- lock around the registry is taken for a whole method, so that a method is one step. The clock and
-- fresh identifiers are parameters; the clock stands still during a check of the heartbeats.
pub mod Sync
pub mod Mapper
pub mod Heartbeats
pub mod Selection
pub mod Effective
use open_vault.Common.{
  ℕ, ◌+◌, ◌-◌, ◌*◌, ◌/◌, ◌%◌, ◌^◌, String, Bool, true, false, not, Option, none, some, List, [],
  ◌∷◌, ◌++◌, if◌then◌else◌, ltb, nat_beq, ◌==◌, string_eq, PartialEq, derived_eq, filter, length,
}
use open_vault.Common.Map
use open_vault.Common.Map.{Map}
use open_vault.Vault.{Time}

pub data DeviceKind : Type 0 where
  pc nas mobile robot server cloud : DeviceKind

pub data DeviceOnlineStatus : Type 0 where
  online offline busy error : DeviceOnlineStatus

abbrev pub DeviceOnlineStatus-discrete : Discrete DeviceOnlineStatus
DeviceOnlineStatus-discrete = hlevel

instance abbrev pub status_eq : PartialEq DeviceOnlineStatus
status_eq = derived_eq DeviceOnlineStatus-discrete

-- An i64.
pub data ℤ : Type 0 where
  pos : ℕ → ℤ
  negsuc : ℕ → ℤ

abbrev pub exceeds : ℕ → ℤ → Bool
exceeds n (pos m) = ltb m n
exceeds n (negsuc m) = true

pub record DeviceProfile : Type 0 where
  pub device_id : String
  pub name : String
  pub kind : DeviceKind
  pub location : String
  pub status : DeviceOnlineStatus
  pub storage_capacity_bytes : ℕ
  pub storage_used_bytes : ℕ
  pub registered_at : Time
  pub last_heartbeat : Option Time
  pub group : Option String
  pub tags : List String

pub new_profile : String → Time → Time → String → DeviceKind → String → ℕ → DeviceProfile
new_profile uuid created heard name kind location capacity = record {
  device_id = uuid;
  name = name;
  kind = kind;
  location = location;
  status = online;
  storage_capacity_bytes = capacity;
  storage_used_bytes = 0;
  registered_at = created;
  last_heartbeat = some heard;
  group = none;
  tags = [];
}

abbrev pub free : DeviceProfile → ℕ
free d = d.storage_capacity_bytes - d.storage_used_bytes

-- Tens of free bytes are counted in 64 bits.
unfoldable pub is_storage_low : DeviceProfile → Bool
is_storage_low d =
    if nat_beq d.storage_capacity_bytes 0
    then false
    else ltb ((free d * 10) % 2 ^ 64) d.storage_capacity_bytes

-- The whole seconds since the heartbeat, none where it lies in the future.
abbrev pub stale_since : Time → ℤ → Option Time → Bool
stale_since now threshold none = true
stale_since now threshold (some hb) = exceeds ((now - hb) / 1000000000) threshold

unfoldable pub is_heartbeat_stale : Time → ℤ → DeviceProfile → Bool
is_heartbeat_stale now threshold d = stale_since now threshold d.last_heartbeat

pub record HeartbeatReport : Type 0 where
  pub total_devices : ℕ
  pub online : ℕ
  pub offline : ℕ
  pub stale : List String

pub record DeviceRegistry : Type 0 where
  pub devices : Map DeviceProfile
  pub heartbeat_threshold_secs : ℤ

unfoldable pub with_heartbeat_threshold : ℤ → DeviceRegistry
with_heartbeat_threshold threshold = record { devices = []; heartbeat_threshold_secs = threshold }

unfoldable pub new : DeviceRegistry
unfolding with_heartbeat_threshold
new = with_heartbeat_threshold (pos 60)

unfoldable pub register : DeviceProfile → DeviceRegistry → DeviceProfile × DeviceRegistry
register profile r =
    (profile, record r { devices = Map.insert profile.device_id profile r.devices })

unfoldable pub unregister : String → DeviceRegistry → Option DeviceProfile × DeviceRegistry
unregister id r = (Map.get id r.devices, record r { devices = Map.remove id r.devices })

pub get : String → DeviceRegistry → Option DeviceProfile
get id r = Map.get id r.devices

unfoldable pub list : DeviceRegistry → List DeviceProfile
list r = Map.values r.devices

abbrev pub in_group : String → DeviceProfile → Bool
in_group group d = elim d.group [ none ↦ false | some g ↦ g == group ]

pub list_by_group : String → DeviceRegistry → List DeviceProfile
list_by_group group r = filter (in_group group) (Map.values r.devices)

pub list_by_location : String → DeviceRegistry → List DeviceProfile
list_by_location location r =
    filter (λ (d : DeviceProfile). d.location == location) (Map.values r.devices)

-- What `get_mut` finds is changed in its place.
unfoldable pub change :
    String
    → (DeviceProfile → DeviceProfile)
    → DeviceRegistry
    → Option DeviceProfile × DeviceRegistry
change id f r = elim (Map.get id r.devices) [
  | none ↦ (none, r)
  | some d ↦ (some (f d), record r { devices = Map.insert id (f d) r.devices })
]

abbrev pub beaten : Time → DeviceProfile → DeviceProfile
beaten now d = record d { last_heartbeat = some now; status = online }

unfoldable pub heartbeat : Time → String → DeviceRegistry → Option DeviceProfile × DeviceRegistry
unfolding change
heartbeat now id r = change id (beaten now) r

unfoldable pub update_storage : String → ℕ → DeviceRegistry → Option DeviceProfile × DeviceRegistry
unfolding change
update_storage id used r = change id (λ d. record d { storage_used_bytes = used }) r

unfoldable pub set_group :
    String → Option String → DeviceRegistry → Option DeviceProfile × DeviceRegistry
unfolding change
set_group id group r = change id (λ d. record d { group = group }) r

-- A round of `check_heartbeats`: the report so far, and the device behind it.
unfoldable pub count_device : Time → ℤ → DeviceProfile → HeartbeatReport → HeartbeatReport
unfolding is_heartbeat_stale
count_device now threshold d t =
    if is_heartbeat_stale now threshold d
    then record t {
      offline = t.offline + 1;
      stale = if d.status == offline then t.stale else t.stale ++ d.device_id ∷ [];
    }
    else record t { online = t.online + 1 }

unfoldable pub check_device : Time → ℤ → DeviceProfile → DeviceProfile
unfolding is_heartbeat_stale
check_device now threshold d = record d {
  status = if is_heartbeat_stale now threshold d then offline else online;
}

unfoldable pub check_devices :
    Time → ℤ → Map DeviceProfile → HeartbeatReport → HeartbeatReport × Map DeviceProfile
unfolding count_device check_device
check_devices now threshold [] t = (t, [])
check_devices now threshold ((k, d) ∷ m) t =
    let (t', m') = check_devices now threshold m (count_device now threshold d t) in
    (t', (k, check_device now threshold d) ∷ m')

unfoldable pub check_heartbeats : Time → DeviceRegistry → HeartbeatReport × DeviceRegistry
unfolding check_devices
check_heartbeats now r =
    let (t, m) =
      check_devices now r.heartbeat_threshold_secs r.devices
        (record { total_devices = 0; online = 0; offline = 0; stale = [] }) in
    (record t { total_devices = length m }, record r { devices = m })
