-- ===== src/Devices/Selection.antt =====
-- Which device the coordinator chooses.
use open_vault.Common.{
  ◌≤◌, ◌≡◌, refl, ap, ◌⊎◌, inl, inr, String, Bool, true, false, not, ◌&&◌, Option, none, some, List,
  [], ◌∷◌, ◌==◌, string_eq, arith, filter, first, contains, is_empty, Bool-cases, All, All-imp, Any,
  All-filter, Any-filter, All-empty,
}
use open_vault.Common.Map
use open_vault.Common.Sort.{greatest_first, greatest_first-Top, Top}
use open_vault.Devices.{DeviceProfile, DeviceRegistry, free, list}
use open_vault.Devices.Sync.{is_online, candidates, preferred, select_restore_source}

-- A device that is Online and not excluded.
abbrev pub usable : List String → DeviceProfile → Bool
usable exclude d = is_online d && not (contains d.device_id exclude)

abbrev pub near : Option String → DeviceProfile → Bool
near none d = true
near (some location) d = d.location == location

-- The device of the registry has the most free storage: of the usable devices at the location, or
-- of all usable ones, where none of them is there. Or there is no device and none is usable.
abbrev pub Best : Option String → List String → List DeviceProfile → Option DeviceProfile → Type 0
Best location exclude ds none = All (λ (c : DeviceProfile). usable exclude c ≡ false) ds
Best location exclude ds (some d) =
    Any (λ (c : DeviceProfile). c ≡ d) ds
    × (usable exclude d ≡ true)
    × ((near location d ≡ true)
          × All
              (λ (c : DeviceProfile).
                usable exclude c ≡ true → near location c ≡ true → free c ≤ free d)
              ds
        ⊎ All (λ (c : DeviceProfile). usable exclude c ≡ true → near location c ≡ false) ds
          × All (λ (c : DeviceProfile). usable exclude c ≡ true → free c ≤ free d) ds)

not_true : (b : Bool) → (b ≡ true → ⊥) → b ≡ false
not_true true refused = absurd (refused refl)
not_true false refused = refl

empty_nil : (xs : List DeviceProfile) → is_empty xs ≡ true → xs ≡ []
empty_nil [] e = refl
empty_nil (x ∷ xs) e = absurd cc

contra : {xs : List DeviceProfile} → xs ≡ [] → is_empty xs ≡ false → ⊥
contra empty e = ground (arith, empty)

-- The best of a list that holds the candidates at the location, or all of them.
module _ (location : Option String) (exclude : List String) (ds : List DeviceProfile) where
  All-candidates :
      (P : DeviceProfile → Type 0)
      → All P (candidates exclude ds)
      → All (λ (c : DeviceProfile). usable exclude c ≡ true → P c) ds
  unfolding candidates
  All-candidates P h =
      All-imp {Q = λ (c : DeviceProfile). usable exclude c ≡ true → P c}
        (λ c f u. f (ground arith) (ground arith)) ds
        (All-filter is_online _ ds (
          All-filter (λ (d : DeviceProfile). not (contains d.device_id exclude)) P
            (filter is_online ds) h))

  Any-candidates :
      (d : DeviceProfile)
      → Any (λ (c : DeviceProfile). c ≡ d) (candidates exclude ds)
      → Any (λ (c : DeviceProfile). c ≡ d) ds × (usable exclude d ≡ true)
  unfolding candidates
  Any-candidates d h =
      let (there, kept) =
        Any-filter (λ (d : DeviceProfile). not (contains d.device_id exclude)) d
          (filter is_online ds) h in
      let (listed, up) = Any-filter is_online d ds there in (listed, ground arith)

  abbrev cands : List DeviceProfile
  cands = candidates exclude ds

  none-Best : cands ≡ [] → Best location exclude ds none
  none-Best e =
      All-imp {Q = λ (c : DeviceProfile). usable exclude c ≡ false}
        (λ c (refused : usable exclude c ≡ true → ⊥). not_true (usable exclude c) refused) ds
        (All-candidates (λ _. ⊥) (rw e tt))

  -- The first of all candidates, where none is at the location or there is no location to prefer.
  unplaced-Best :
      (o : Option DeviceProfile)
      → (location ≡ none) ⊎ All (λ (c : DeviceProfile). near location c ≡ false) cands
      → Top free cands o
      → Best location exclude ds o
  unfolding Top
  unplaced-Best none away e = none-Best e
  unplaced-Best (some d) (inl anywhere) (there, below) =
      let (listed, fit) = Any-candidates d there in
      (
        listed,
        fit,
        inl (
          ap (λ (l : Option String). near l d) anywhere,
          All-imp
              {Q = λ (c : DeviceProfile).
                usable exclude c ≡ true → near location c ≡ true → free c ≤ free d}
              (λ c h u n. h u) ds (All-candidates (λ (c : DeviceProfile). free c ≤ free d) below),
        ),
      )
  unplaced-Best (some d) (inr away) (there, below) =
      let (listed, fit) = Any-candidates d there in
      (
        listed,
        fit,
        inr (
          All-candidates (λ (c : DeviceProfile). near location c ≡ false) away,
          All-candidates (λ (c : DeviceProfile). free c ≤ free d) below,
        ),
      )

  -- The first of the candidates at the location.
  near-Best :
      (d : DeviceProfile)
      → Top free (filter (near location) cands) (some d)
      → Best location exclude ds (some d)
  unfolding Top
  near-Best d (there, below) =
      let (kept, at) = Any-filter (near location) d cands there in
      let (listed, fit) = Any-candidates d kept in
      (
        listed,
        fit,
        inl (
          at,
          All-imp
              {Q = λ (c : DeviceProfile).
                usable exclude c ≡ true → near location c ≡ true → free c ≤ free d}
              (λ c h u n. h u n) ds
              (All-candidates (λ (c : DeviceProfile). near location c ≡ true → free c ≤ free d)
                (All-filter (near location) (λ (c : DeviceProfile). free c ≤ free d) cands below)),
        ),
      )

  away :
      is_empty (filter (near location) cands) ≡ true
      → All (λ (c : DeviceProfile). near location c ≡ false) cands
  away e =
      All-imp {Q = λ (c : DeviceProfile). near location c ≡ false}
        (λ c (refused : near location c ≡ true → ⊥). not_true (near location c) refused) cands
        (All-filter (near location) (λ _. ⊥) cands (All-empty (λ _. ⊥) _ e))

module _ (exclude : List String) (ds : List DeviceProfile) where
  matches-Best :
      (loc : String) (o : Option DeviceProfile)
      → is_empty (filter (near (some loc)) (candidates exclude ds)) ≡ false
      → Top free (filter (near (some loc)) (candidates exclude ds)) o
      → Best (some loc) exclude ds o
  unfolding Top
  matches-Best loc none e empty = absurd (contra empty e)
  matches-Best loc (some d) e top = near-Best (some loc) exclude ds d top

  preferred-Best :
      (location : Option String)
      → Best location exclude ds
          (first (greatest_first free (preferred location (candidates exclude ds))))
  unfolding preferred
  preferred-Best none =
      unplaced-Best none exclude ds _ (inl refl) (greatest_first-Top free (candidates exclude ds))
  preferred-Best (some loc) =
      let matches = filter (near (some loc)) (candidates exclude ds) in
      elim (Bool-cases (is_empty matches)) [
        | inl e ↦ rw e (
            unplaced-Best (some loc) exclude ds _ (inr (away (some loc) exclude ds e))
              (greatest_first-Top free (candidates exclude ds)))
        | inr e ↦ rw e (matches-Best loc _ e (greatest_first-Top free matches))
      ]

-- The device to restore from has the most free storage among the Online devices that are not
-- excluded and stand at the preferred location, or among all that are Online and not excluded where
-- none of these stands there. There is no device exactly where none is Online and not excluded.
pub select_restore_source-Best :
    (location : Option String) (exclude : List String) (r : DeviceRegistry)
    → Best location exclude (Map.values r.devices) (select_restore_source location exclude r)
unfolding select_restore_source list
select_restore_source-Best location exclude r =
    let ds = Map.values r.devices in
    elim (Bool-cases (is_empty (candidates exclude ds))) [
      | inl e ↦ rw e (none-Best location exclude ds (empty_nil (candidates exclude ds) e))
      | inr e ↦ rw e (preferred-Best exclude ds location)
    ]
