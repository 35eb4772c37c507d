-- ===== src/Scheduling/Priority/Tests.antt =====
-- The three processes of main.
use os_exploring.Common.{
  sum_range, ℕ, zero, suc, ◌<◌, ◌≤◌, ◌≡◌, refl, true, none, some, arith, ℤ, pos, int_max, ltb_ℤ,
  ◌≤ℤ◌, for_range,
}
use os_exploring.Scheduling.Selection.{select_below}
use os_exploring.Scheduling.Priority.{
  Process, PriorityState, is_ready, find_highest_priority, priority_scheduling,
}
use os_exploring.Scheduling.Priority.Stuck.{priority_scheduling-none}
use os_exploring.Scheduling.Priority.Rounds.{
  IsRunnable, IsBooked, find_highest_priority_lem, priority_scheduling_ends,
}

abbrev task : ℕ → ℕ → ℕ → ℤ → Process
task id arrival burst priority = record {
  process_id = id;
  arrival_time = arrival;
  burst_time = burst;
  priority = priority;
  waiting_time = 0;
  turnaround_time = 0;
}

abbrev tasks : ℕ → Process
tasks zero = task 1 0 10 (pos 3)
tasks (suc zero) = task 2 1 5 (pos 1)
tasks (suc (suc i)) = task 3 3 8 (pos 2)

tasks-IsRunnable : IsRunnable 3 3 tasks
tasks-IsRunnable = record { busy = busy; selectable = selectable; arrived = arrived }
  where
    busy : (i : ℕ) → i < 3 → 0 < (tasks i).burst_time
    busy zero l = omega arith
    busy (suc zero) l = omega arith
    busy (suc (suc i)) l = omega arith

    selectable : (i : ℕ) → i < 3 → ltb_ℤ (tasks i).priority int_max ≡ true
    selectable zero l = refl
    selectable (suc zero) l = refl
    selectable (suc (suc i)) l = refl

    arrived : (i : ℕ) → i < 3 → (tasks i).arrival_time ≤ 3
    arrived zero l = omega arith
    arrived (suc zero) l = omega arith
    arrived (suc (suc i)) l = omega arith

priority_scheduling_ends_example :
    (f : PriorityState) × (priority_scheduling 27 tasks 3 ≡ some f)
    × (f.completed ≡ 3)
    × IsBooked 3 tasks f
unfolding sum_range
priority_scheduling_ends_example =
    priority_scheduling_ends 3 3 27 tasks tasks-IsRunnable (omega arith)

-- At time 3 all have arrived.
abbrev at_three : PriorityState
at_three = record {
  processes = tasks;
  current_time = 3;
  completed = 0;
  total_waiting_time = 0;
  total_turnaround_time = 0;
}

second_runs : find_highest_priority 3 at_three ≡ some 1
unfolding find_highest_priority select_below for_range
second_runs = refl

find_highest_priority_run :
    (1 < 3)
    × (is_ready (tasks 1) 3 ≡ true)
    × ((j : ℕ) → j < 3 → is_ready (tasks j) 3 ≡ true → (tasks 1).priority ≤ℤ (tasks j).priority)
find_highest_priority_run = find_highest_priority_lem 3 at_three 1 second_runs

-- The second process has nothing to do.
abbrev one_idle : ℕ → Process
one_idle zero = task 1 0 10 (pos 3)
one_idle (suc i) = task 2 1 0 (pos 1)

priority_scheduling-none_example : priority_scheduling 1000 one_idle 2 ≡ none
priority_scheduling-none_example = priority_scheduling-none 1000 2 1 one_idle (omega arith) refl
