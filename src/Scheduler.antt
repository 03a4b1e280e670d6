-- ===== src/Scheduler.antt =====
-- crates/openvault-intel/src/scheduler.rs: the window and the queue of backup tasks. The quality of
-- a network is a floating-point number: the type of networks, their scores and the comparison `<`
-- of scores are parameters. The clock gives the hour and the day of the week.
pub mod Order
pub mod Choice
use open_vault.Common.{
  ℕ, String, Bool, true, false, not, ◌&&◌, ◌||◌, Option, none, some, List, [], ◌∷◌, ◌++◌, zero, suc,
  if◌then◌else◌, ltb, leb, nat_beq, nat_eq, ◌==◌, string_eq, contains, is_empty, filter, length,
}

-- The hour, and the days from Monday.
pub record Clock : Type 0 where
  pub hour : ℕ
  pub weekday : ℕ

pub record ScheduleWindow : Type 0 where
  pub start_hour : ℕ
  pub end_hour : ℕ
  pub days : List ℕ

pub with_days : ℕ → ℕ → List ℕ → ScheduleWindow
with_days start finish days = record { start_hour = start; end_hour = finish; days = days }

pub new_window : ℕ → ℕ → ScheduleWindow
new_window start finish = record { start_hour = start; end_hour = finish; days = [] }

abbrev pub default : ScheduleWindow
default = record { start_hour = 0; end_hour = 24; days = [] }

unfoldable pub is_within : ScheduleWindow → Clock → Bool
is_within w now =
    if not (is_empty w.days) && not (contains now.weekday w.days)
    then false
    else if leb w.start_hour w.end_hour
    then leb w.start_hour now.hour && ltb now.hour w.end_hour
    else leb w.start_hour now.hour || ltb now.hour w.end_hour

pub record ScheduleEntry (N : Type 0) : Type 0 where
  pub id : String
  pub device_id : String
  pub source_path : String
  pub priority : ℕ
  pub estimated_size : ℕ
  pub device_online : Bool
  pub network : N
  pub scheduled : Bool

pub record SmartScheduler (N F : Type 0) : Type 0 where
  pub window : ScheduleWindow
  pub queue : List (ScheduleEntry N)
  pub min_network_score : F

module _ {N F : Type 0} (quality_score : N → F) (less : F → F → Bool) where
  -- `cmp` gives Less: by the priority, and then by the score, where a NaN counts as equal.
  abbrev pub below : ScheduleEntry N → ScheduleEntry N → Bool
  below a b =
      ltb a.priority b.priority
      || nat_beq a.priority b.priority && less (quality_score a.network) (quality_score b.network)

  -- A binary heap as a list. `pop` takes a greatest element; which of several is not specified.
  abbrev pub put_top :
      ScheduleEntry N
      → List (ScheduleEntry N)
      → Option (ScheduleEntry N × List (ScheduleEntry N))
      → Option (ScheduleEntry N × List (ScheduleEntry N))
  put_top x xs none = some (x, [])
  put_top x xs (some (y, rest)) = if below x y then some (y, x ∷ rest) else some (x, xs)

  unfoldable pub pop : List (ScheduleEntry N) → Option (ScheduleEntry N × List (ScheduleEntry N))
  pop [] = none
  pop (x ∷ xs) = put_top x xs (pop xs)

  abbrev pub new : F → SmartScheduler N F
  new thirty = record { window = default; queue = []; min_network_score = thirty }

  abbrev pub with_window : F → ScheduleWindow → SmartScheduler N F
  with_window thirty window = record { window = window; queue = []; min_network_score = thirty }

  abbrev pub with_min_network_score : F → SmartScheduler N F → SmartScheduler N F
  with_min_network_score score s = record s { min_network_score = score }

  unfoldable pub enqueue : ScheduleEntry N → SmartScheduler N F → SmartScheduler N F
  enqueue e s = record s { queue = e ∷ s.queue }

  unfoldable pub remove : String → SmartScheduler N F → Bool × SmartScheduler N F
  remove id s =
      let kept = filter (λ (e : ScheduleEntry N). not (e.id == id)) s.queue in
      (ltb (length kept) (length s.queue), record s { queue = kept })

  pub pending_count : SmartScheduler N F → ℕ
  pending_count s = length s.queue

  abbrev pub top : Option (ScheduleEntry N × List (ScheduleEntry N)) → Option (ScheduleEntry N)
  top none = none
  top (some (e, rest)) = some e

  unfoldable pub peek : SmartScheduler N F → Option (ScheduleEntry N)
  unfolding pop
  peek s = top (pop s.queue)

  -- The device is online and its network good enough.
  abbrev pub eligible : F → ScheduleEntry N → Bool
  eligible least e = e.device_online && not (less (quality_score e.network) least)

  -- The loop of `schedule_next`, on fuel: what it returns, and the queue with what was skipped.
  unfoldable pub next_loop :
      ℕ
      → Bool
      → F
      → List (ScheduleEntry N)
      → List (ScheduleEntry N)
      → Option (ScheduleEntry N) × List (ScheduleEntry N)
  next_loop zero within least skipped queue = (none, skipped ++ queue)
  next_loop (suc fuel) within least skipped queue = elim (pop queue) [
    | none ↦ (none, skipped)
    | some (e, rest) ↦ elim within [
      | false ↦ (none, e ∷ skipped ++ rest)
      | true ↦ elim (eligible least e) [
        | true ↦ (some e, skipped ++ rest)
        | false ↦ next_loop fuel true least (e ∷ skipped) rest
      ]
    ]
  ]

  -- As many rounds as there are tasks, and one for the empty heap.
  unfoldable pub schedule_next :
      Clock → SmartScheduler N F → Option (ScheduleEntry N) × SmartScheduler N F
  unfolding next_loop is_within
  schedule_next now s =
      let (found, queue) =
        next_loop (suc (length s.queue)) (is_within s.window now) s.min_network_score [] s.queue in
      (found, record s { queue = queue })
