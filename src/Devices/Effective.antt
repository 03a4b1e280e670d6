-- ===== src/Devices/Effective.antt =====
-- The two ways to the effective policies of a device.
use open_vault.Common.{
  ◌≡◌, ◌≢◌, refl, String, Option, none, some, List, [], ◌∷◌, string_eq, eq_iff, arith, map, All,
}
use open_vault.Common.Map
use open_vault.Common.Map.{Map}
use open_vault.Devices.Mapper.{
  PolicyConfig, PolicyOverride, DevicePolicyMapper, apply_override, override_of,
  get_effective_config, policies_for_device, effective_all,
}

-- No key stands twice.
abbrev pub DistinctKeys : List String → Type 0
DistinctKeys [] = Unit
DistinctKeys (k ∷ ks) = All (λ (j : String). k ≢ j) ks × DistinctKeys ks

abbrev effective :
    String
    → List ((String × String) × PolicyOverride)
    → Map PolicyConfig
    → String
    → Option PolicyConfig
effective device overrides m policy = elim (Map.get policy m) [
  | none ↦ none
  | some base ↦ some (apply_override base (override_of device policy overrides))
]

module _ (device : String) (overrides : List ((String × String) × PolicyOverride)) where
  effective-here :
      (k : String) (base : PolicyConfig) (m : Map PolicyConfig)
      → effective device overrides ((k, base) ∷ m) k
        ≡ some (apply_override base (override_of device k overrides))
  unfolding Map.get
  effective-here k base m = ground (arith, eq_iff k k)

  effective-other :
      (k j : String) (base : PolicyConfig) (m : Map PolicyConfig)
      → k ≢ j
      → effective device overrides ((k, base) ∷ m) j ≡ effective device overrides m j
  unfolding Map.get
  effective-other k j base m apart = ground (arith, eq_iff k j, apart)

  effective-others :
      (k : String) (base : PolicyConfig) (m : Map PolicyConfig) (js : List String)
      → All (λ (j : String). k ≢ j) js
      → map (effective device overrides ((k, base) ∷ m)) js ≡ map (effective device overrides m) js
  effective-others k base m [] apart = refl
  effective-others k base m (j ∷ js) (here, later) =
      let e = effective-other k j base m here in let es = effective-others k base m js later in cc

  effective_all-map :
      (m : Map PolicyConfig)
      → DistinctKeys (Map.keys m)
      → map some (effective_all device overrides m)
        ≡ map (effective device overrides m) (Map.keys m)
  unfolding effective_all
  effective_all-map [] distinct = refl
  effective_all-map ((k, base) ∷ m) (apart, distinct) =
      let e = effective-here k base m in
      let es = effective-others k base m (Map.keys m) apart in
      let rest = effective_all-map m distinct in cc

-- Where no policy id stands twice, the policies of a device are, in the order of the policies, what
-- `get_effective_config` returns for each of their ids.
pub policies_for_device-effective :
    {F : Type 0} (device : String) (m : DevicePolicyMapper F)
    → DistinctKeys (Map.keys m.policies)
    → map some (policies_for_device device m)
      ≡ map (λ (policy : String). get_effective_config device policy m) (Map.keys m.policies)
unfolding policies_for_device get_effective_config
policies_for_device-effective device m distinct =
    effective_all-map device m.overrides m.policies distinct
