-- ===== src/Devices/Heartbeats.antt =====
-- What a check of the heartbeats says of every device after any use of the registry.
use open_vault.Common.{
  ℕ, ◌≡◌, refl, sym, ap, ◌∙◌, String, Bool, true, false, Option, none, some, List, [], ◌∷◌,
  if◌then◌else◌, ◌==◌, string_eq, eq_iff, arith, Bool-cases, inl, inr, subst, Option-cases,
}
use open_vault.Common.Map
use open_vault.Common.Map.{Map, get-insert, get-remove}
use open_vault.Vault.{Time}
use open_vault.Devices.{
  DeviceProfile, DeviceRegistry, HeartbeatReport, ℤ, online, offline, status_eq, DeviceOnlineStatus,
  register, unregister, heartbeat, check_heartbeats, check_devices, check_device, count_device,
  update_storage, set_group, change, is_heartbeat_stale, stale_since, with_heartbeat_threshold,
}

-- A use of the registry.
pub data Call : Type 0 where
  registered : DeviceProfile → Call
  unregistered : String → Call
  beat : Time → String → Call
  checked : Time → Call
  used : String → ℕ → Call
  grouped : String → Option String → Call

abbrev pub step : Call → DeviceRegistry → DeviceRegistry
step (registered p) r = (register p r).1
step (unregistered id) r = (unregister id r).1
step (beat now id) r = (heartbeat now id r).1
step (checked now) r = (check_heartbeats now r).1
step (used id n) r = (update_storage id n r).1
step (grouped id g) r = (set_group id g r).1

abbrev pub run : List Call → DeviceRegistry → DeviceRegistry
run [] r = r
run (c ∷ cs) r = run cs (step c r)

abbrev pub over {ℓ} : {A B : Type ℓ} → (A → B) → Option A → Option B
over f none = none
over f (some a) = some (f a)

-- Of a device: none where it is not registered, and else when it was heard of last.
abbrev pub heard : List Call → String → Option (Option Time) → Option (Option Time)
heard [] id o = o
heard (registered p ∷ cs) id o =
    heard cs id (if p.device_id == id then some p.last_heartbeat else o)
heard (unregistered i ∷ cs) id o = heard cs id (if i == id then none else o)
heard (beat now i ∷ cs) id o = heard cs id (if i == id then over (λ _. some now) o else o)
heard (checked now ∷ cs) id o = heard cs id o
heard (used i n ∷ cs) id o = heard cs id o
heard (grouped i g ∷ cs) id o = heard cs id o

abbrev pub last_heard : Option DeviceProfile → Option (Option Time)
last_heard = over (λ (d : DeviceProfile). d.last_heartbeat)

change-found :
    (id : String) (f : DeviceProfile → DeviceProfile) (r : DeviceRegistry) (d : DeviceProfile)
    → Map.get id r.devices ≡ some d
    → (change id f r).1.devices ≡ Map.insert id (f d) r.devices
unfolding change
change-found id f r d e = ground arith

change-missing :
    (id : String) (f : DeviceProfile → DeviceProfile) (r : DeviceRegistry)
    → Map.get id r.devices ≡ none
    → (change id f r).1.devices ≡ r.devices
unfolding change
change-missing id f r e = ground arith

over-if :
    (b : Bool) (f : DeviceProfile → DeviceProfile) (o : Option DeviceProfile) (d : DeviceProfile)
    → (b ≡ true → o ≡ some d)
    → (if b then some (f d) else o) ≡ (if b then over f o else o)
over-if true f o d e = sym (ap (over f) (e refl))
over-if false f o d e = refl

none-if :
    (b : Bool) (f : DeviceProfile → DeviceProfile) (o : Option DeviceProfile)
    → (b ≡ true → o ≡ none)
    → o ≡ (if b then over f o else o)
none-if true f o e = e refl ∙ sym (ap (over f) (e refl))
none-if false f o e = refl

get-change :
    (id j : String) (f : DeviceProfile → DeviceProfile) (r : DeviceRegistry)
    → Map.get j (change id f r).1.devices
      ≡ (if id == j then over f (Map.get j r.devices) else Map.get j r.devices)
get-change id j f r =
    let at : (o : Option DeviceProfile)
        → Map.get id r.devices ≡ o
        → id == j ≡ true
        → Map.get j r.devices ≡ o =
      λ o e same. subst (λ (k : String). Map.get k r.devices ≡ o) ((eq_iff id j).0 same) e in
    elim (Option-cases (Map.get id r.devices)) [
      | inl e ↦
          ap (Map.get j) (change-missing id f r e)
          ∙ none-if (id == j) f (Map.get j r.devices) (at none e)
      | inr (d, e) ↦
          ap (Map.get j) (change-found id f r d e)
          ∙ get-insert id j (f d) r.devices
          ∙ over-if (id == j) f (Map.get j r.devices) d (at (some d) e)
    ]

get-check_devices :
    (now : Time) (threshold : ℤ) (id : String) (m : Map DeviceProfile) (t : HeartbeatReport)
    → Map.get id (check_devices now threshold m t).1
      ≡ over (check_device now threshold) (Map.get id m)
unfolding check_devices Map.get
get-check_devices now threshold id [] t = refl
get-check_devices now threshold id ((k, d) ∷ m) t =
    let rest = get-check_devices now threshold id m (count_device now threshold d t) in
    elim (Bool-cases (k == id)) [ inl here ↦ rw here refl | inr other ↦ rw other rest ]

module _ (now : Time) (r : DeviceRegistry) where
  get-check_heartbeats :
      (id : String)
      → Map.get id (check_heartbeats now r).1.devices
        ≡ over (check_device now r.heartbeat_threshold_secs) (Map.get id r.devices)
  unfolding check_heartbeats
  get-check_heartbeats id = get-check_devices now r.heartbeat_threshold_secs id r.devices _

check_device-kept :
    (now : Time) (threshold : ℤ) (d : DeviceProfile)
    → (check_device now threshold d).last_heartbeat ≡ d.last_heartbeat
unfolding check_device
check_device-kept now threshold d = refl

-- Changes that leave the heartbeat of every device.
over-kept :
    (f : DeviceProfile → DeviceProfile)
    → ((d : DeviceProfile) → (f d).last_heartbeat ≡ d.last_heartbeat)
    → (o : Option DeviceProfile) → last_heard (over f o) ≡ last_heard o
over-kept f same none = refl
over-kept f same (some d) = ap some (same d)

last_heard-if :
    (b : Bool) (o o' : Option DeviceProfile)
    → last_heard (if b then o else o') ≡ (if b then last_heard o else last_heard o')
last_heard-if b o o' = ground arith

last_heard-same :
    (b : Bool) (o o' : Option DeviceProfile)
    → last_heard o ≡ last_heard o'
    → last_heard (if b then o else o') ≡ last_heard o'
last_heard-same b o o' same = ground arith

last_heard-change :
    (id j : String) (f : DeviceProfile → DeviceProfile) (r : DeviceRegistry)
    → ((d : DeviceProfile) → (f d).last_heartbeat ≡ d.last_heartbeat)
    → last_heard (Map.get j (change id f r).1.devices) ≡ last_heard (Map.get j r.devices)
last_heard-change id j f r same =
    ap last_heard (get-change id j f r)
    ∙ last_heard-same (id == j) (over f (Map.get j r.devices)) (Map.get j r.devices)
        (over-kept f same (Map.get j r.devices))

last_heard-beat :
    (now : Time) (o : Option DeviceProfile)
    → last_heard
        (over (λ (d : DeviceProfile). record d { last_heartbeat = some now; status = online }) o)
      ≡ over (λ _. some now) (last_heard o)
last_heard-beat now none = refl
last_heard-beat now (some d) = refl

last_heard-run :
    (cs : List Call) (id : String) (r : DeviceRegistry)
    → last_heard (Map.get id (run cs r).devices) ≡ heard cs id (last_heard (Map.get id r.devices))
unfolding register unregister heartbeat update_storage set_group
last_heard-run [] id r = refl
last_heard-run (registered p ∷ cs) id r =
    last_heard-run cs id (register p r).1
    ∙ ap (heard cs id) (
        ap last_heard (get-insert p.device_id id p r.devices)
        ∙ last_heard-if (p.device_id == id) (some p) (Map.get id r.devices))
last_heard-run (unregistered i ∷ cs) id r =
    last_heard-run cs id (unregister i r).1
    ∙ ap (heard cs id) (
        ap last_heard (get-remove i id r.devices)
        ∙ last_heard-if (i == id) none (Map.get id r.devices))
last_heard-run (beat now i ∷ cs) id r =
    last_heard-run cs id (heartbeat now i r).1
    ∙ ap (heard cs id) (
        ap last_heard (get-change i id _ r)
        ∙ last_heard-if (i == id) _ (Map.get id r.devices)
        ∙ ap
            (λ (o : Option (Option Time)). if i == id then o else last_heard (Map.get id r.devices))
            (last_heard-beat now (Map.get id r.devices)))
last_heard-run (checked now ∷ cs) id r =
    last_heard-run cs id (check_heartbeats now r).1
    ∙ ap (heard cs id) (
        ap last_heard (get-check_heartbeats now r id)
        ∙ over-kept (check_device now r.heartbeat_threshold_secs) (check_device-kept now _)
            (Map.get id r.devices))
last_heard-run (used i n ∷ cs) id r =
    last_heard-run cs id (update_storage i n r).1
    ∙ ap (heard cs id) (last_heard-change i id _ r (λ d. refl))
last_heard-run (grouped i g ∷ cs) id r =
    last_heard-run cs id (set_group i g r).1
    ∙ ap (heard cs id) (last_heard-change i id _ r (λ d. refl))

threshold-change :
    (id : String) (f : DeviceProfile → DeviceProfile) (r : DeviceRegistry)
    → (change id f r).1.heartbeat_threshold_secs ≡ r.heartbeat_threshold_secs
unfolding change
threshold-change id f r = ground arith

threshold-run :
    (cs : List Call) (r : DeviceRegistry)
    → (run cs r).heartbeat_threshold_secs ≡ r.heartbeat_threshold_secs
unfolding register unregister heartbeat check_heartbeats update_storage set_group
threshold-run [] r = refl
threshold-run (registered p ∷ cs) r = threshold-run cs (register p r).1
threshold-run (unregistered i ∷ cs) r = threshold-run cs (unregister i r).1
threshold-run (beat now i ∷ cs) r = threshold-run cs (heartbeat now i r).1 ∙ threshold-change i _ r
threshold-run (checked now ∷ cs) r = threshold-run cs (check_heartbeats now r).1
threshold-run (used i n ∷ cs) r = threshold-run cs (update_storage i n r).1 ∙ threshold-change i _ r
threshold-run (grouped i g ∷ cs) r = threshold-run cs (set_group i g r).1 ∙ threshold-change i _ r

abbrev pub status_in : String → DeviceRegistry → Option DeviceOnlineStatus
status_in id r = over (λ (d : DeviceProfile). d.status) (Map.get id r.devices)

abbrev pub status_at : Time → ℤ → Option Time → DeviceOnlineStatus
status_at now threshold hb = if stale_since now threshold hb then offline else online

status-checked :
    (now : Time) (threshold : ℤ) (o : Option DeviceProfile)
    → over (λ (d : DeviceProfile). d.status) (over (check_device now threshold) o)
      ≡ over (status_at now threshold) (last_heard o)
unfolding check_device is_heartbeat_stale
status-checked now threshold none = refl
status-checked now threshold (some d) = refl

-- After any calls of a registry that was empty, a check of the heartbeats leaves every device that
-- is registered then either Online or Offline: Offline exactly where the time since it was heard of
-- last, at its registration or by a heartbeat, is longer than the threshold or it was never heard
-- of. No other status that a device was registered with (Busy, Error) outlives the check.
pub check_heartbeats-run :
    (threshold : ℤ) (calls : List Call) (now : Time) (id : String)
    → status_in id (check_heartbeats now (run calls (with_heartbeat_threshold threshold))).1
      ≡ over (status_at now threshold) (heard calls id none)
unfolding with_heartbeat_threshold Map.get
check_heartbeats-run threshold calls now id =
    let r = run calls (with_heartbeat_threshold threshold) in
    ap (over (λ (d : DeviceProfile). d.status)) (get-check_heartbeats now r id)
    ∙ status-checked now r.heartbeat_threshold_secs (Map.get id r.devices)
    ∙ ap (over (status_at now r.heartbeat_threshold_secs))
        (last_heard-run calls id (with_heartbeat_threshold threshold))
    ∙ ap (λ (t : ℤ). over (status_at now t) (heard calls id none))
        (threshold-run calls (with_heartbeat_threshold threshold))
