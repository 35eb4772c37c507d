-- ===== src/Scheduling/RoundRobin/Tests.antt =====
-- The three processes of main.
use os_exploring.Common.{ℕ, zero, suc, ◌<◌, ◌≤◌, ◌*◌, ◌≡◌, some, arith, pos}
use os_exploring.Scheduling.RoundRobin.{Process, RoundRobinState, round_robin_scheduling}
use os_exploring.Scheduling.RoundRobin.Rounds.{IsFinished, round_robin_scheduling_ends}

abbrev task : ℕ → ℕ → ℕ → Process
task id arrival burst = record {
  process_id = id;
  arrival_time = arrival;
  burst_time = burst;
  remaining_time = burst;
  waiting_time = pos 0;
  turnaround_time = pos 0;
}

abbrev tasks : ℕ → Process
tasks zero = task 1 0 10
tasks (suc zero) = task 2 1 5
tasks (suc (suc i)) = task 3 3 8

tasks_work : (i : ℕ) → i < 3 → 0 < (tasks i).remaining_time
tasks_work zero l = omega arith
tasks_work (suc zero) l = omega arith
tasks_work (suc (suc i)) l = omega arith

tasks_short : (i : ℕ) → i < 3 → (tasks i).remaining_time ≤ 2 * 5
tasks_short zero l = omega arith
tasks_short (suc zero) l = omega arith
tasks_short (suc (suc i)) l = omega arith

round_robin_scheduling_ends_example :
    (f : RoundRobinState) × (round_robin_scheduling 6 tasks 3 ≡ some f) × IsFinished 3 tasks f
round_robin_scheduling_ends_example =
    round_robin_scheduling_ends 6 5 3 tasks tasks_work tasks_short (omega arith)
