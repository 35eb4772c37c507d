-- ===== src/Scheduling/Fcfs/Sums.antt =====
-- The times of fcfs_scheduling as sums of bursts.
use os_exploring.Common.{
  sum_range, ℕ, zero, suc, ◌+◌, ◌-◌, ◌<◌, ◌≡◌, arith, for_range, for_range_inv,
}
use os_exploring.Scheduling.Fcfs.{Process, first_served, serve, fcfs_loop, fcfs_scheduling}

abbrev pub burst_of : (ℕ → Process) → ℕ → ℕ
burst_of ps i = (ps i).burst_time

-- The array when the loop comes to process `k`.
record Served (ps : ℕ → Process) (k : ℕ) (now : ℕ → Process) : Type 0 where
  started : 0 < k
  same_burst : (i : ℕ) → (now i).burst_time ≡ (ps i).burst_time
  waits : (i : ℕ) → i < k → (now i).waiting_time ≡ sum_range i (burst_of ps)
  turns : (i : ℕ) → i < k → (now i).turnaround_time ≡ sum_range (i + 1) (burst_of ps)

first_served-Served : (ps : ℕ → Process) → Served ps 1 (first_served ps)
unfolding first_served sum_range
first_served-Served ps = record {
  started = omega arith;
  same_burst = λ i. ground arith;
  waits = λ i l. ground arith;
  turns = λ i l. ground arith;
}

serve-Served :
    (ps : ℕ → Process) (k : ℕ) (now : ℕ → Process)
    → Served ps k now
    → Served ps (k + 1) (serve k now)
unfolding serve sum_range
serve-Served ps zero now h = absurd (omega (arith, h.started))
serve-Served ps (suc k) now h = record {
  started = omega arith;
  same_burst = λ i. ground (arith, h.same_burst i);
  waits = λ i l. ground (arith, h.waits i, h.waits k, h.same_burst k);
  turns = λ i l. ground (arith, h.turns i, h.waits k, h.same_burst k, h.same_burst (suc k));
}

-- With at least one process, each waits for the sum of the bursts before it, whatever the arrival
-- times are, and its turnaround time adds its own burst.
pub fcfs_scheduling-sum_range :
    (ps : ℕ → Process) (n i : ℕ)
    → 0 < n
    → i < n
    → (((fcfs_scheduling ps n).0 i).waiting_time ≡ sum_range i (burst_of ps))
      × (((fcfs_scheduling ps n).0 i).turnaround_time ≡ sum_range (i + 1) (burst_of ps))
unfolding fcfs_scheduling fcfs_loop
fcfs_scheduling-sum_range ps n i some_ below =
    let s : Served ps n (for_range (n - 1) 1 serve (first_served ps)) =
      for_range_inv (Served ps) serve n (λ k now l h. serve-Served ps k now h) (n - 1) 1
        (first_served ps) (omega arith) (first_served-Served ps) in
    (s.waits i below, s.turns i below)
