-- ===== src/Scheduling/ShortestJob.antt =====
-- sjf_scheduling.c: the shortest remaining time first, one tick at a time.
-- The array `remaining_time` has MAX_PROCESSES = 100 cells, which the source does not test: of more jobs
-- than that the program writes past its end, and the model does not say what comes of it.
-- Times are never negative. The float totals are sums of the integers that the source adds up.
pub mod Rounds
mod Tests
use os_exploring.Common.{
  ℕ, zero, suc, ◌+◌, ◌-◌, Bool, ◌&&◌, not, Option, none, some, ℤ, pos, ltb, leb, ◌==◌,
  if◌then◌else◌, update, for_range,
}
use os_exploring.Scheduling.Selection.{select_min, select_below}

pub record Process : Type 0 where
  pub process_id : ℕ
  pub arrival_time : ℕ
  pub burst_time : ℕ
  pub waiting_time : ℕ
  pub turnaround_time : ℕ

-- The locals of `sjf_scheduling`, with the array that it changes.
pub record SjfState : Type 0 where
  pub processes : ℕ → Process
  pub remaining_time : ℕ → ℕ
  pub current_time : ℕ
  pub completed : ℕ
  pub total_waiting_time : ℕ
  pub total_turnaround_time : ℕ

abbrev pub is_waiting : SjfState → ℕ → Bool
is_waiting s i = leb (s.processes i).arrival_time s.current_time && ltb 0 (s.remaining_time i)

unfoldable pub find_shortest_job : ℕ → SjfState → Option ℕ
unfolding select_below
find_shortest_job n s = (select_min n (is_waiting s) (λ i. pos (s.remaining_time i))).1

-- The tick of the job that was selected.
unfoldable pub run_job : ℕ → SjfState → SjfState
run_job i s =
    let p = s.processes i in
    let remaining = s.remaining_time i - 1 in
    let finish_time = s.current_time + 1 in
    let waiting = finish_time - p.burst_time - p.arrival_time in
    let turnaround = finish_time - p.arrival_time in
    let run = record s {
      remaining_time = update s.remaining_time i remaining;
      current_time = finish_time;
    } in
    if remaining == 0
    then record run {
      processes =
          update s.processes i (record p { waiting_time = waiting; turnaround_time = turnaround });
      completed = s.completed + 1;
      total_waiting_time = s.total_waiting_time + waiting;
      total_turnaround_time = s.total_turnaround_time + turnaround;
    }
    else run

-- The body of the `while` loop.
unfoldable pub sjf_step : ℕ → SjfState → SjfState
unfolding find_shortest_job run_job
sjf_step n s = elim (find_shortest_job n s) [
  | none ↦ record s { current_time = s.current_time + 1 }
  | some i ↦ run_job i s
]

-- The `while` loop, with fuel; `none` means that the fuel ran out.
unfoldable pub sjf_loop : ℕ → ℕ → SjfState → Option SjfState
unfolding sjf_step
sjf_loop zero n s = none
sjf_loop (suc fuel) n s =
    let rest = sjf_loop fuel n (sjf_step n s) in if s.completed == n then some s else rest

-- `remaining_time` is not initialised past `n`, and is not read there.
unfoldable pub sjf_scheduling : ℕ → (ℕ → Process) → ℕ → Option SjfState
unfolding sjf_loop for_range
sjf_scheduling fuel processes n = sjf_loop fuel n (record {
  processes = processes;
  remaining_time = for_range n 0 (λ i r. update r i (processes i).burst_time) (λ _. 0);
  current_time = 0;
  completed = 0;
  total_waiting_time = 0;
  total_turnaround_time = 0;
})
