-- ===== src/Scheduling/Fcfs.antt =====
-- fcfs_scheduling.c: first come, first served.
-- Times are never negative. The results go into the array; the averages are only printed.
pub mod Sums
mod Tests
use os_exploring.Common.{ℕ, ◌+◌, ◌-◌, update, for_range}

pub record Process : Type 0 where
  pub process_id : ℕ
  pub arrival_time : ℕ
  pub burst_time : ℕ
  pub waiting_time : ℕ
  pub turnaround_time : ℕ

-- processes[0].waiting_time = 0; processes[0].turnaround_time = processes[0].burst_time
unfoldable pub first_served : (ℕ → Process) → ℕ → Process
first_served ps =
    update ps 0 (record (ps 0) { waiting_time = 0; turnaround_time = (ps 0).burst_time })

-- The body of the first loop.
unfoldable pub serve : ℕ → (ℕ → Process) → ℕ → Process
serve i ps =
    let before = ps (i - 1) in
    let waiting = before.waiting_time + before.burst_time in
    update ps i
      (record (ps i) { waiting_time = waiting; turnaround_time = waiting + (ps i).burst_time })

-- for (i = 1; i < n; i++)
unfoldable pub fcfs_loop : ℕ → (ℕ → Process) → ℕ → Process
unfolding first_served serve for_range
fcfs_loop n ps = for_range (n - 1) 1 serve (first_served ps)

-- The second loop: the two totals.
unfoldable pub add_totals : ℕ → (ℕ → Process) → ℕ × ℕ
unfolding for_range
add_totals n ps =
    for_range n 0 (λ i (w, t). (w + (ps i).waiting_time, t + (ps i).turnaround_time)) (0, 0)

-- The array and the two totals.
unfoldable pub fcfs_scheduling : (ℕ → Process) → ℕ → (ℕ → Process) × (ℕ × ℕ)
unfolding fcfs_loop add_totals
fcfs_scheduling ps n = (fcfs_loop n ps, add_totals n (fcfs_loop n ps))
