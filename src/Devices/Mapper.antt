-- ===== src/Devices/Mapper.antt =====
-- The policies of devices in crates/openvault-server/src/device_manager.rs. The ratio of used
-- storage is a floating-point number: its type, the division and the comparison with 0.9 are
-- parameters.
use open_vault.Common.{
  ℕ, String, Bool, true, false, ◌&&◌, Option, none, some, List, [], ◌∷◌, if◌then◌else◌, ltb, ◌==◌,
  string_eq,
}
use open_vault.Common.Map
use open_vault.Common.Map.{Map}

pub record PolicyConfig : Type 0 where
  pub policy_id : String
  pub name : String
  pub schedule : String
  pub retention_days : ℕ
  pub compression : Bool
  pub encryption : Bool

pub record PolicyOverride : Type 0 where
  pub device_id : String
  pub policy_id : String
  pub schedule : Option String
  pub retention_days : Option ℕ
  pub compression : Option Bool
  pub encryption : Option Bool

-- `F` is the type of ratios. The overrides are kept under pairs of identifiers.
pub record DevicePolicyMapper (F : Type 0) : Type 0 where
  pub policies : Map PolicyConfig
  pub overrides : List ((String × String) × PolicyOverride)
  pub capacity_warnings : Map F

abbrev pub override_of :
    String → String → List ((String × String) × PolicyOverride) → Option PolicyOverride
override_of device policy [] = none
override_of device policy (((d, p), ov) ∷ rest) =
    if d == device && p == policy then some ov else override_of device policy rest

abbrev pub put_override :
    PolicyOverride
    → List ((String × String) × PolicyOverride)
    → List ((String × String) × PolicyOverride)
put_override ov [] = ((ov.device_id, ov.policy_id), ov) ∷ []
put_override ov (((d, p), old) ∷ rest) =
    if d == ov.device_id && p == ov.policy_id
    then ((ov.device_id, ov.policy_id), ov) ∷ rest
    else ((d, p), old) ∷ put_override ov rest

abbrev pub or_base {ℓ} : {A : Type ℓ} → A → Option A → A
or_base a none = a
or_base a (some b) = b

-- The four tests on the override, which `get_effective_config` and `policies_for_device` repeat.
unfoldable pub apply_override : PolicyConfig → Option PolicyOverride → PolicyConfig
apply_override base none = base
apply_override base (some ov) = record base {
  schedule = or_base base.schedule ov.schedule;
  retention_days = or_base base.retention_days ov.retention_days;
  compression = or_base base.compression ov.compression;
  encryption = or_base base.encryption ov.encryption;
}

unfoldable pub effective_all :
    String → List ((String × String) × PolicyOverride) → Map PolicyConfig → List PolicyConfig
unfolding apply_override
effective_all device overrides [] = []
effective_all device overrides ((policy, base) ∷ rest) =
    apply_override base (override_of device policy overrides) ∷ effective_all device overrides rest

module _ {F : Type 0} where
  pub new : DevicePolicyMapper F
  new = record { policies = []; overrides = []; capacity_warnings = [] }

  unfoldable pub add_policy : PolicyConfig → DevicePolicyMapper F → DevicePolicyMapper F
  add_policy config m = record m { policies = Map.insert config.policy_id config m.policies }

  unfoldable pub get_effective_config : String → String → DevicePolicyMapper F → Option PolicyConfig
  unfolding apply_override
  get_effective_config device policy m = elim (Map.get policy m.policies) [
    | none ↦ none
    | some base ↦ some (apply_override base (override_of device policy m.overrides))
  ]

  unfoldable pub set_override : PolicyOverride → DevicePolicyMapper F → DevicePolicyMapper F
  set_override ov m = record m { overrides = put_override ov m.overrides }

  pub list_policies : DevicePolicyMapper F → List PolicyConfig
  list_policies m = Map.values m.policies

  unfoldable pub policies_for_device : String → DevicePolicyMapper F → List PolicyConfig
  unfolding effective_all
  policies_for_device device m = effective_all device m.overrides m.policies

  -- The zero, the division, and the test of the threshold.
  module _ (zero_ratio : F) (divide : ℕ → ℕ → F) (reaches : F → Bool) where
    abbrev pub ratio : ℕ → ℕ → F
    ratio used total = if ltb 0 total then divide used total else zero_ratio

    unfoldable pub check_capacity :
        String → ℕ → ℕ → DevicePolicyMapper F → Bool × DevicePolicyMapper F
    check_capacity device used total m =
        let r = ratio used total in
        if reaches r
        then (true, record m { capacity_warnings = Map.insert device r m.capacity_warnings })
        else (false, record m { capacity_warnings = Map.remove device m.capacity_warnings })

  pub get_capacity_warnings : DevicePolicyMapper F → Map F
  get_capacity_warnings m = m.capacity_warnings
