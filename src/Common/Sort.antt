-- ===== src/Common/Sort.antt =====
-- Sorting by a key, as the standard library's stable sorts do it, and the last greatest element.
use Prim.Native.Nat.{ℕ, ◌≤◌}
use mathlib.Core.List.{List, [], ◌∷◌}
use mathlib.Core.Path.{◌≡◌, refl}
use mathlib.Core.Logic.{inl, inr}
use mathlib.Core.Bool.{true}
use native.Mathlib.Omega.{arith}
use mathlib.Core.Option.{Option, none, some}
use open_vault.Common.Tests.{ltb, leb, if◌then◌else◌, Bool-cases}
use open_vault.Common.Lists.{first, All, All-imp, Any}

module _ {ℓ} {A : Type ℓ} (key : A → ℕ) where
  -- Before the first element that is not greater, so that equal ones keep their order.
  unfoldable pub put_greatest : A → List A → List A
  put_greatest x [] = x ∷ []
  put_greatest x (y ∷ ys) = if leb (key y) (key x) then x ∷ y ∷ ys else y ∷ put_greatest x ys

  -- `sort_by_key` with `Reverse`.
  unfoldable pub greatest_first : List A → List A
  unfolding put_greatest
  greatest_first [] = []
  greatest_first (x ∷ xs) = put_greatest x (greatest_first xs)

  abbrev pub later_greatest : A → Option A → Option A
  later_greatest x none = some x
  later_greatest x (some y) = if ltb (key y) (key x) then some x else some y

  -- `max_by_key`: the last of the greatest.
  unfoldable pub max_by_key : List A → Option A
  max_by_key [] = none
  max_by_key (x ∷ xs) = later_greatest x (max_by_key xs)

le_of : {a b c : ℕ} → leb b c ≡ true → a ≤ b → a ≤ c
le_of le h = ground arith

module _ {A : Type 0} (key : A → ℕ) where
  -- The greatest of a list, where it has an element.
  unfoldable pub Top : List A → Option A → Type 0
  Top xs none = xs ≡ []
  Top xs (some x) = Any (λ (y : A). y ≡ x) xs × All (λ (y : A). key y ≤ key x) xs

  put_greatest-Top :
      (x : A) (xs l : List A) → Top xs (first l) → Top (x ∷ xs) (first (put_greatest key x l))
  unfolding put_greatest Top
  put_greatest-Top x xs [] e = rw e (inl refl, (omega arith, tt))
  put_greatest-Top x xs (y ∷ ys) (there, below) = elim (Bool-cases (leb (key y) (key x))) [
    | inl le ↦
        rw le
          (inl refl, (omega arith, All-imp (λ (w : A) (h : key w ≤ key y). le_of le h) xs below))
    | inr gt ↦ rw gt (inr there, (ground arith, below))
  ]

  pub greatest_first-Top : (xs : List A) → Top xs (first (greatest_first key xs))
  unfolding greatest_first Top
  greatest_first-Top [] = refl
  greatest_first-Top (x ∷ xs) = put_greatest-Top x xs _ (greatest_first-Top xs)
