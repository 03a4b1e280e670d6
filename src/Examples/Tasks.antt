-- ===== src/Examples/Tasks.antt =====
-- A queue of three tasks whose networks are scored by numbers.
use open_vault.Common.{ℕ, String, Bool, true, false, [], ◌∷◌, ltb, arith}
use open_vault.Scheduler.{ScheduleEntry, SmartScheduler, Clock, default, is_within, schedule_next}
use open_vault.Scheduler.Order.{ScoreOrder}
use open_vault.Scheduler.Choice.{Chosen, schedule_next-Chosen}

abbrev score : ℕ → ℕ
score n = n

numbers-ScoreOrder : ScoreOrder ltb
numbers-ScoreOrder = record {
  asymmetric = λ a b h. ground arith;
  transitive = λ a b c h k. ground arith;
}

abbrev task : String → ℕ → ℕ → Bool → ScheduleEntry ℕ
task id priority network up = record {
  id = id;
  device_id = id;
  source_path = "/data";
  priority = priority;
  estimated_size = 1;
  device_online = up;
  network = network;
  scheduled = false;
}

abbrev scheduler : SmartScheduler ℕ ℕ
scheduler = record {
  window = default;
  queue = task "a" 1 90 true ∷ task "b" 3 80 false ∷ task "c" 2 40 true ∷ [];
  min_network_score = 30;
}

abbrev noon : Clock
noon = record { hour = 12; weekday = 2 }

schedule_next-Chosen_example :
    let (found, s') = schedule_next score ltb noon scheduler in
    Chosen score ltb numbers-ScoreOrder
      (is_within default noon)
      30
      scheduler.queue
      (found, s'.queue)
schedule_next-Chosen_example = schedule_next-Chosen score ltb numbers-ScoreOrder noon scheduler
