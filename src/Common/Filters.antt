-- ===== src/Common/Filters.antt =====
-- What a filter keeps.
use mathlib.Core.Path.{◌≡◌}
use mathlib.Core.Logic.{◌⊎◌, inl, inr}
use mathlib.Core.Bool.{Bool, true, false}
use mathlib.Core.List.{List, [], ◌∷◌}
use mathlib.Core.Path.{subst}
use open_vault.Common.Tests.{Bool-cases}
use open_vault.Common.Lists.{filter, is_empty, All, Any}

module _ {A : Type 0} (p : A → Bool) where
  holds-false : {Q : Type 0} (b : Bool) → b ≡ false → b ≡ true → Q
  holds-false b is_false is_true = cc

  pub All-filter :
      (P : A → Type 0) (xs : List A) → All P (filter p xs) → All (λ (x : A). p x ≡ true → P x) xs
  All-filter P [] h = tt
  All-filter P (x ∷ xs) h = elim (Bool-cases (p x)) [
    | inl is_true ↦ let (here, later) = rw is_true at h in ((λ _. here), All-filter P xs later)
    | inr is_false ↦ (λ e. holds-false (p x) is_false e, All-filter P xs (rw is_false at h))
  ]

  cons_case : (P : A → Type 0) (x : A) (xs : List A) → Any P (x ∷ xs) → P x ⊎ Any P xs
  cons_case P x xs h = h

  pub Any-filter :
      (y : A) (xs : List A)
      → Any (λ (x : A). x ≡ y) (filter p xs)
      → Any (λ (x : A). x ≡ y) xs × (p y ≡ true)
  Any-filter y [] h = elim h [ ]
  Any-filter y (x ∷ xs) h = elim (Bool-cases (p x)) [
    | inr is_false ↦ let (listed, kept) = Any-filter y xs (rw is_false at h) in (inr listed, kept)
    | inl is_true ↦ elim (cons_case _ x (filter p xs) (rw is_true at h)) [
      | inl same ↦ (inl same, subst (λ (z : A). p z ≡ true) same is_true)
      | inr later ↦ let (listed, kept) = Any-filter y xs later in (inr listed, kept)
    ]
  ]

module _ {A : Type 0} where
  pub All-empty : (P : A → Type 0) (xs : List A) → is_empty xs ≡ true → All P xs
  All-empty P [] e = tt
  All-empty P (x ∷ xs) e = cc
