-- ===== src/Scheduler/Order.antt =====
-- The heap of crates/openvault-intel/src/scheduler.rs: what `pop` takes, where the scores are
-- ordered.
use open_vault.Common.{
  ℕ, ◌+◌, ◌≤◌, ◌≡◌, refl, Bool, true, false, ◌&&◌, Option, none, some, List, [], ◌∷◌, ◌++◌, arith,
  inl, inr, Bool-cases, length,
}
use open_vault.Scheduler.{ScheduleEntry, below, pop, put_top}

-- How many elements pass a test.
abbrev pub one : Bool → ℕ
one true = 1
one false = 0

abbrev pub count {ℓ} : {A : Type ℓ} → (A → Bool) → List A → ℕ
count p [] = 0
count p (x ∷ xs) = one (p x) + count p xs

module _ {A : Type 0} where
  pub count-append : (p : A → Bool) (xs ys : List A) → count p (xs ++ ys) ≡ count p xs + count p ys
  count-append p [] ys = omega arith
  count-append p (x ∷ xs) ys = omega (arith, count-append p xs ys)

  pub count-both :
      (p q : A → Bool) (xs : List A)
      → (count (λ x. p x && q x) xs ≤ count p xs) × (count (λ x. p x && q x) xs ≤ count q xs)
  count-both p q [] = (omega arith, omega arith)
  count-both p q (x ∷ xs) = let (l, r) = count-both p q xs in (ground (arith, l), ground (arith, r))

  pub count-all : (xs : List A) → count (λ x. true) xs ≡ length xs
  count-all [] = refl
  count-all (x ∷ xs) = omega (arith, count-all xs)

-- A comparison of scores as `<` is on numbers.
pub record ScoreOrder {F : Type 0} (less : F → F → Bool) : Type 0 where
  pub asymmetric : (a b : F) → less a b ≡ true → less b a ≡ false
  pub transitive : (a b c : F) → less a b ≡ false → less b c ≡ false → less a c ≡ false

module _ {N F : Type 0} (quality_score : N → F) (less : F → F → Bool)
    (order : ScoreOrder less) where
  below_asym :
      (a b : ScheduleEntry N)
      → below quality_score less a b ≡ true
      → below quality_score less b a ≡ false
  below_asym a b h =
      ground (arith, order.asymmetric (quality_score a.network) (quality_score b.network))

  below_irrefl : (a : ScheduleEntry N) → below quality_score less a a ≡ false
  below_irrefl a =
      ground (arith, order.asymmetric (quality_score a.network) (quality_score a.network))

  below_trans :
      (a b c : ScheduleEntry N)
      → below quality_score less a b ≡ false
      → below quality_score less b c ≡ false
      → below quality_score less a c ≡ false
  below_trans a b c h k = ground (
    arith,
    order.transitive (quality_score a.network) (quality_score b.network) (quality_score c.network),
  )

  count-below :
      (x y : ScheduleEntry N) (xs : List (ScheduleEntry N))
      → below quality_score less x y ≡ false
      → count (below quality_score less y) xs ≡ 0
      → count (below quality_score less x) xs ≡ 0
  count-below x y [] h none_above = refl
  count-below x y (z ∷ xs) h none_above = ground (arith, below_trans x y z h, count-below x y xs h)

  -- A greatest element with the others.
  unfoldable pub Popped :
      List (ScheduleEntry N) → Option (ScheduleEntry N × List (ScheduleEntry N)) → Type 0
  Popped xs none = xs ≡ []
  Popped xs (some (y, rest)) =
      (count (below quality_score less y) xs ≡ 0)
      × ((p : ScheduleEntry N → Bool) → count p xs ≡ one (p y) + count p rest)

  put_top-Popped :
      (x : ScheduleEntry N) (xs : List (ScheduleEntry N))
      (o : Option (ScheduleEntry N × List (ScheduleEntry N)))
      → Popped xs o
      → Popped (x ∷ xs) (put_top quality_score less x xs o)
  unfolding Popped
  put_top-Popped x xs none e = rw e (ground (arith, below_irrefl x), λ p. refl)
  put_top-Popped x xs (some (y, rest)) (least, same) =
      elim (Bool-cases (below quality_score less x y)) [
        | inl above ↦
            rw above (ground (arith, below_asym x y above, least), λ p. omega (arith, same p))
        | inr beside ↦
            rw beside (ground (arith, below_irrefl x, count-below x y xs beside least), λ p. refl)
      ]

  pub pop-Popped : (xs : List (ScheduleEntry N)) → Popped xs (pop quality_score less xs)
  unfolding Popped pop
  pop-Popped [] = refl
  pop-Popped (x ∷ xs) = put_top-Popped x xs (pop quality_score less xs) (pop-Popped xs)
