-- ===== src/Common/Map.antt =====
-- `HashMap<String, V>` as an association list. A key that is inserted again keeps its place; the
-- order in which a map is walked is the order of the list.
use Prim.Native.String.{String}
use mathlib.Core.Path.{◌≡◌, refl, sym, ap, subst}
use mathlib.Core.Logic.{inl, inr}
use open_vault.Common.Lists.{filter}
use mathlib.Core.Bool.{Bool, true, false}
use mathlib.Core.List.{List, [], ◌∷◌}
use mathlib.Core.Option.{Option, none, some}
use native.Mathlib.Omega.{arith}
use text.Mathlib.TextEquality.{eq_iff}
use open_vault.Common.Tests.{◌==◌, string_eq, if◌then◌else◌, Bool-cases}

abbrev pub Map {ℓ} : Type ℓ → Type ℓ
Map V = List (String × V)

module _ {ℓ} {V : Type ℓ} where
  unfoldable pub get : String → Map V → Option V
  get k [] = none
  get k ((j, v) ∷ m) = if j == k then some v else get k m

  abbrev pub is_some : Option V → Bool
  is_some none = false
  is_some (some v) = true

  unfoldable pub contains_key : String → Map V → Bool
  unfolding get
  contains_key k m = is_some (get k m)

  unfoldable pub insert : String → V → Map V → Map V
  insert k v [] = (k, v) ∷ []
  insert k v ((j, w) ∷ m) = if j == k then (k, v) ∷ m else (j, w) ∷ insert k v m

  unfoldable pub remove : String → Map V → Map V
  remove k [] = []
  remove k ((j, v) ∷ m) = let rest = remove k m in if j == k then rest else (j, v) ∷ rest

  abbrev pub keys : Map V → List String
  keys [] = []
  keys ((k, v) ∷ m) = k ∷ keys m

  abbrev pub values : Map V → List V
  values [] = []
  values ((k, v) ∷ m) = v ∷ values m

  pub get-insert :
      (k j : String) (v : V) (m : Map V)
      → get j (insert k v m) ≡ (if k == j then some v else get j m)
  unfolding get insert
  get-insert k j v [] = refl
  get-insert k j v ((i, w) ∷ m) =
      ground (arith, eq_iff k j, eq_iff i k, eq_iff i j, get-insert k j v m)

  pub get-remove :
      (k j : String) (m : Map V) → get j (remove k m) ≡ (if k == j then none else get j m)
  unfolding get remove
  get-remove k j [] = ground arith
  get-remove k j ((i, v) ∷ m) = ground (arith, get-remove k j m, eq_iff i k, eq_iff i j, eq_iff k j)

  pub get-contains_key : (k : String) (m : Map V) → contains_key k m ≡ false → get k m ≡ none
  unfolding contains_key
  get-contains_key k m h = ground arith

  -- A test that refuses the key does not see what is inserted.
  pub filter-insert :
      (p : String → Bool) (k : String) (v : V) (m : Map V)
      → p k ≡ false
      → filter (λ (f : String × V). p f.0) (insert k v m) ≡ filter (λ (f : String × V). p f.0) m
  unfolding insert
  filter-insert p k v [] e = rw e refl
  filter-insert p k v ((j, w) ∷ m) e = elim (Bool-cases (j == k)) [
    | inl same ↦
        let at : p j ≡ false = subst (λ (i : String). p i ≡ false) (sym ((eq_iff j k).0 same)) e in
        rw same (rw e (rw at refl))
    | inr differ ↦
        rw differ (ap (λ (l : Map V). if p j then (j, w) ∷ l else l) (filter-insert p k v m e))
  ]

pub ruleset map_laws = (get-insert, get-remove)
