-- ===== src/Scheduling/Priority.antt =====
-- priority_scheduling.c: preemptive scheduling by priority, one tick at a time.
-- Times are never negative. The float totals are sums of the integers that the source adds up.
pub mod Rounds
pub mod Stuck
mod Tests
use os_exploring.Common.{
  ℕ, zero, suc, ◌+◌, ◌-◌, Bool, ◌&&◌, Option, none, some, ℤ, ltb, leb, ◌==◌, if◌then◌else◌, update,
}
use os_exploring.Scheduling.Selection.{select_min, select_below}

pub record Process : Type 0 where
  pub process_id : ℕ
  pub arrival_time : ℕ
  pub burst_time : ℕ
  pub priority : ℤ
  pub waiting_time : ℕ
  pub turnaround_time : ℕ

-- The locals of `priority_scheduling`, with the array that it changes.
pub record PriorityState : Type 0 where
  pub processes : ℕ → Process
  pub current_time : ℕ
  pub completed : ℕ
  pub total_waiting_time : ℕ
  pub total_turnaround_time : ℕ

-- A process that has arrived and is not done.
abbrev pub is_ready : Process → ℕ → Bool
is_ready p now = leb p.arrival_time now && ltb 0 p.burst_time

unfoldable pub find_highest_priority : ℕ → PriorityState → Option ℕ
unfolding select_below
find_highest_priority n s =
    (select_min n (λ i. is_ready (s.processes i) s.current_time) (λ i. (s.processes i).priority)).1

-- The tick of the process that was selected.
unfoldable pub execute : ℕ → PriorityState → PriorityState
execute i s =
    let p = s.processes i in
    let burst = p.burst_time - 1 in
    let finish_time = s.current_time + 1 in
    let waiting = finish_time - burst - p.arrival_time in
    let turnaround = finish_time - p.arrival_time in
    if burst == 0
    then record {
      processes =
          update s.processes i
            (record p { burst_time = burst; waiting_time = waiting; turnaround_time = turnaround });
      current_time = finish_time;
      completed = s.completed + 1;
      total_waiting_time = s.total_waiting_time + waiting;
      total_turnaround_time = s.total_turnaround_time + turnaround;
    }
    else record s {
      processes = update s.processes i (record p { burst_time = burst });
      current_time = finish_time;
    }

-- The body of the `while` loop.
unfoldable pub priority_step : ℕ → PriorityState → PriorityState
unfolding find_highest_priority execute
priority_step n s = elim (find_highest_priority n s) [
  | none ↦ record s { current_time = s.current_time + 1 }
  | some i ↦ execute i s
]

-- The `while` loop, with fuel; `none` means that the fuel ran out.
unfoldable pub priority_loop : ℕ → ℕ → PriorityState → Option PriorityState
unfolding priority_step
priority_loop zero n s = none
priority_loop (suc fuel) n s =
    let rest = priority_loop fuel n (priority_step n s) in
    if ltb s.completed n then rest else some s

unfoldable pub priority_scheduling : ℕ → (ℕ → Process) → ℕ → Option PriorityState
unfolding priority_loop
priority_scheduling fuel processes n = priority_loop fuel n (record {
  processes = processes;
  current_time = 0;
  completed = 0;
  total_waiting_time = 0;
  total_turnaround_time = 0;
})
