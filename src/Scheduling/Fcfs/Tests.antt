-- ===== src/Scheduling/Fcfs/Tests.antt =====
-- The three processes of main.
use os_exploring.Common.{sum_range, ℕ, zero, suc, ◌≡◌, refl, arith}
use os_exploring.Scheduling.Fcfs.{Process, fcfs_scheduling}
use os_exploring.Scheduling.Fcfs.Sums.{burst_of, fcfs_scheduling-sum_range}

abbrev task : ℕ → ℕ → ℕ → Process
task id arrival burst = record {
  process_id = id;
  arrival_time = arrival;
  burst_time = burst;
  waiting_time = 0;
  turnaround_time = 0;
}

abbrev tasks : ℕ → Process
tasks zero = task 1 0 10
tasks (suc zero) = task 2 1 5
tasks (suc (suc i)) = task 3 3 8

total_waiting : (fcfs_scheduling tasks 3).1.0 ≡ 25
unfolding fcfs_scheduling
total_waiting = refl

fcfs_scheduling-sum_range_run :
    (((fcfs_scheduling tasks 3).0 2).waiting_time ≡ sum_range 2 (burst_of tasks))
    × (((fcfs_scheduling tasks 3).0 2).turnaround_time ≡ sum_range 3 (burst_of tasks))
fcfs_scheduling-sum_range_run = fcfs_scheduling-sum_range tasks 3 2 (omega arith) (omega arith)
