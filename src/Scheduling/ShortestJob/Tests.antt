-- ===== src/Scheduling/ShortestJob/Tests.antt =====
-- The three processes of main.
use os_exploring.Common.{sum_range, ℕ, zero, suc, ◌<◌, ◌≤◌, ◌≡◌, refl, true, some, arith, for_range}
use os_exploring.Scheduling.Selection.{select_below}
use os_exploring.Scheduling.ShortestJob.{
  Process, SjfState, is_waiting, find_shortest_job, sjf_scheduling,
}
use os_exploring.Scheduling.ShortestJob.Rounds.{
  IsRunnable, IsBooked, find_shortest_job_lem, sjf_scheduling_ends,
}

abbrev task : ℕ → ℕ → ℕ → Process
task id arrival burst = record {
  process_id = id;
  arrival_time = arrival;
  burst_time = burst;
  waiting_time = 0;
  turnaround_time = 0;
}

abbrev tasks : ℕ → Process
tasks zero = task 1 0 10
tasks (suc zero) = task 2 1 5
tasks (suc (suc i)) = task 3 3 8

tasks-IsRunnable : IsRunnable 3 3 tasks
tasks-IsRunnable = record { busy = busy; selectable = selectable; arrived = arrived }
  where
    busy : (i : ℕ) → i < 3 → 0 < (tasks i).burst_time
    busy zero l = omega arith
    busy (suc zero) l = omega arith
    busy (suc (suc i)) l = omega arith

    selectable : (i : ℕ) → i < 3 → (tasks i).burst_time < 2147483647
    selectable zero l = omega arith
    selectable (suc zero) l = omega arith
    selectable (suc (suc i)) l = omega arith

    arrived : (i : ℕ) → i < 3 → (tasks i).arrival_time ≤ 3
    arrived zero l = omega arith
    arrived (suc zero) l = omega arith
    arrived (suc (suc i)) l = omega arith

sjf_scheduling_ends_example :
    (f : SjfState) × (sjf_scheduling 27 tasks 3 ≡ some f) × (f.completed ≡ 3) × IsBooked 3 tasks f
unfolding sum_range
sjf_scheduling_ends_example = sjf_scheduling_ends 3 3 27 tasks tasks-IsRunnable (omega arith)

-- At time 3 all have arrived.
abbrev at_three : SjfState
at_three = record {
  processes = tasks;
  remaining_time = λ i. (tasks i).burst_time;
  current_time = 3;
  completed = 0;
  total_waiting_time = 0;
  total_turnaround_time = 0;
}

second_runs : find_shortest_job 3 at_three ≡ some 1
unfolding find_shortest_job select_below for_range
second_runs = refl

find_shortest_job_run :
    (1 < 3)
    × (is_waiting at_three 1 ≡ true)
    × ((j : ℕ) → j < 3 → is_waiting at_three j ≡ true → 5 ≤ at_three.remaining_time j)
find_shortest_job_run = find_shortest_job_lem 3 at_three 1 second_runs
