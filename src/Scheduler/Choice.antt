-- ===== src/Scheduler/Choice.antt =====
-- Which task `schedule_next` gives.
use open_vault.Common.{
  ℕ, ◌<◌, ◌≡◌, ◌⊎◌, refl, sym, ap, ◌∙◌, subst, Bool, true, false, ◌&&◌, Option, none, some, List,
  [], ◌∷◌, ◌++◌, zero, suc, arith, inl, inr, Bool-cases, length,
}
use open_vault.Scheduler.{
  ScheduleEntry, SmartScheduler, Clock, is_within, below, pop, eligible, next_loop, schedule_next,
}
use open_vault.Scheduler.Order.{
  count, count-append, count-both, count-all, ScoreOrder, Popped, pop-Popped,
}

module _ {N F : Type 0} (quality_score : N → F) (less : F → F → Bool) (order : ScoreOrder less)
    (within : Bool) (least : F) where
  -- The two queues hold the same tasks.
  abbrev pub Same : List (ScheduleEntry N) → List (ScheduleEntry N) → Type 0
  Same xs ys = (p : ScheduleEntry N → Bool) → count p xs ≡ count p ys

  -- Nothing is given outside the window or where no task is eligible. A task that is given is
  -- eligible, no eligible one is above it, and the others stay.
  abbrev pub Chosen :
      List (ScheduleEntry N) → Option (ScheduleEntry N) × List (ScheduleEntry N) → Type 0
  Chosen xs (none, ys) =
      ((within ≡ false) ⊎ (count (eligible quality_score less least) xs ≡ 0)) × Same xs ys
  Chosen xs (some e, ys) =
      (within ≡ true)
      × (eligible quality_score less least e ≡ true)
      × (count
            (λ (x : ScheduleEntry N).
              eligible quality_score less least x && below quality_score less e x)
            xs
          ≡ 0)
      × Same xs (e ∷ ys)

  Chosen-Same :
      (xs ys : List (ScheduleEntry N)) (r : Option (ScheduleEntry N) × List (ScheduleEntry N))
      → Same xs ys
      → Chosen ys r
      → Chosen xs r
  Chosen-Same xs ys (none, zs) same (inl closed, left) = (inl closed, λ p. same p ∙ left p)
  Chosen-Same xs ys (none, zs) same (inr none_fit, left) =
      (inr (same _ ∙ none_fit), λ p. same p ∙ left p)
  Chosen-Same xs ys (some e, zs) same (open_, fit, top, left) =
      (open_, fit, same _ ∙ top, λ p. same p ∙ left p)

  module _ (fuel : ℕ) (skipped queue : List (ScheduleEntry N)) where
    abbrev next : Option (ScheduleEntry N) × List (ScheduleEntry N)
    next = next_loop quality_score less (suc fuel) within least skipped queue

    next-empty : pop quality_score less queue ≡ none → next ≡ (none, skipped)
    unfolding next_loop
    next-empty e = ground arith

    module _ (e : ScheduleEntry N) (rest : List (ScheduleEntry N))
        (popped : pop quality_score less queue ≡ some (e, rest)) where
      next-closed : within ≡ false → next ≡ (none, e ∷ skipped ++ rest)
      unfolding next_loop
      next-closed closed = ground arith

      next-chosen :
          within ≡ true
          → eligible quality_score less least e ≡ true
          → next ≡ (some e, skipped ++ rest)
      unfolding next_loop
      next-chosen open_ fit = ground arith

      next-skipped :
          within ≡ true
          → eligible quality_score less least e ≡ false
          → next ≡ next_loop quality_score less fuel within least (e ∷ skipped) rest
      unfolding next_loop
      next-skipped open_ unfit = ground arith

      -- What is popped goes to the front.
      Same-Popped :
          Popped quality_score less order queue (some (e, rest))
          → Same (skipped ++ queue) (e ∷ skipped ++ rest)
      unfolding Popped
      Same-Popped (top, same) p =
          omega (arith, count-append p skipped queue, count-append p skipped rest, same p)

      Chosen-top :
          within ≡ true
          → eligible quality_score less least e ≡ true
          → count (eligible quality_score less least) skipped ≡ 0
          → Popped quality_score less order queue (some (e, rest))
          → Chosen (skipped ++ queue) (some e, skipped ++ rest)
      unfolding Popped
      Chosen-top open_ fit unfit (top, same) =
          let fits = eligible quality_score less least in
          let over = below quality_score less e in
          let both = λ (x : ScheduleEntry N). fits x && over x in
          (
            open_,
            fit,
            omega (
              arith,
              count-append both skipped queue,
              (count-both fits over skipped).0,
              (count-both fits over queue).1,
              unfit,
              top,
            ),
            Same-Popped (top, same),
          )

  fewer :
      (queue rest : List (ScheduleEntry N)) (x : ScheduleEntry N)
      → Popped quality_score less order queue (some (x, rest))
      → length rest < length queue
  unfolding Popped
  fewer queue rest x (top, same) = omega (arith, same (λ _. true), count-all queue, count-all rest)

  -- A round, where the next ones choose rightly.
  module _ (fuel : ℕ) (skipped queue : List (ScheduleEntry N))
      (unfit : count (eligible quality_score less least) skipped ≡ 0)
      (later : (x : ScheduleEntry N) (rest : List (ScheduleEntry N))
        → length rest < length queue
        → count (eligible quality_score less least) (x ∷ skipped) ≡ 0
        → Chosen
            (x ∷ skipped ++ rest)
            (next_loop quality_score less fuel within least (x ∷ skipped) rest)) where
    Popped-Chosen :
        (x : ScheduleEntry N) (rest : List (ScheduleEntry N))
        → pop quality_score less queue ≡ some (x, rest)
        → Popped quality_score less order queue (some (x, rest))
        → Chosen (skipped ++ queue) (next fuel skipped queue)
    Popped-Chosen x rest e h = elim (Bool-cases within) [
      | inr closed ↦
          subst (Chosen (skipped ++ queue)) (sym (next-closed fuel skipped queue x rest e closed))
            (inl closed, Same-Popped fuel skipped queue x rest e h)
      | inl open_ ↦ elim (Bool-cases (eligible quality_score less least x)) [
        | inl fit ↦
            subst (Chosen (skipped ++ queue))
              (sym (next-chosen fuel skipped queue x rest e open_ fit))
              (Chosen-top fuel skipped queue x rest e open_ fit unfit h)
        | inr not_fit ↦
            Chosen-Same (skipped ++ queue) (x ∷ skipped ++ rest) (next fuel skipped queue)
              (Same-Popped fuel skipped queue x rest e h)
              (subst (Chosen (x ∷ skipped ++ rest))
                (sym (next-skipped fuel skipped queue x rest e open_ not_fit))
                (later x rest (fewer queue rest x h) (ground (arith, unfit))))
      ]
    ]

    next-Chosen :
        (o : Option (ScheduleEntry N × List (ScheduleEntry N)))
        → pop quality_score less queue ≡ o
        → Popped quality_score less order queue o
        → Chosen (skipped ++ queue) (next fuel skipped queue)
    unfolding Popped
    next-Chosen (some (x, rest)) e h = Popped-Chosen x rest e h
    next-Chosen none e empty =
        let gone = λ (p : ScheduleEntry N → Bool). ap (count p) empty in
        subst (Chosen (skipped ++ queue)) (sym (next-empty fuel skipped queue e)) (
          inr (
              omega (
                arith,
                count-append (eligible quality_score less least) skipped queue,
                gone (eligible quality_score less least),
                unfit,
              )),
          λ p. omega (arith, count-append p skipped queue, gone p),
        )

  next_loop-Chosen :
      (fuel : ℕ) (skipped queue : List (ScheduleEntry N))
      → length queue < fuel
      → count (eligible quality_score less least) skipped ≡ 0
      → Chosen (skipped ++ queue) (next_loop quality_score less fuel within least skipped queue)
  next_loop-Chosen zero skipped queue enough unfit = absurd (omega arith)
  next_loop-Chosen (suc fuel) skipped queue enough unfit =
      next-Chosen fuel skipped queue unfit
        (λ x rest less_ unfit'. next_loop-Chosen fuel (x ∷ skipped) rest (omega arith) unfit')
        (pop quality_score less queue) refl (pop-Popped quality_score less order queue)

-- Let the scores be ordered, none of them a NaN. The scheduler gives no task exactly outside the
-- window or where none is eligible (its device is online and its network good enough), and the
-- queue stays. A task that it gives inside the window is eligible and leaves the queue alone of all
-- tasks, and no eligible task has a higher priority, or the same and a better network.
pub schedule_next-Chosen :
    {N F : Type 0} (quality_score : N → F) (less : F → F → Bool) (order : ScoreOrder less)
    (now : Clock) (s : SmartScheduler N F)
    → let (found, s') = schedule_next quality_score less now s in
      Chosen quality_score less order
        (is_within s.window now)
        s.min_network_score
        s.queue
        (found, s'.queue)
unfolding schedule_next
schedule_next-Chosen quality_score less order now s =
    next_loop-Chosen quality_score less order (is_within s.window now) s.min_network_score
      (suc (length s.queue)) [] s.queue (omega arith) refl
