-- ===== src/Scheduling/RoundRobin.antt =====
-- round_robin_scheduling.c: each process in turn runs for a quantum of time.
-- The times of a process come in as numbers; the two that are worked out are int, and may be negative,
-- since a process may run before its arrival time. The float totals are sums of those.
pub mod Turns
pub mod Rounds
mod Tests
use os_exploring.Common.{
  ℕ, zero, suc, ◌+◌, ◌-◌, Option, none, some, ℤ, pos, ◌+ℤ◌, ◌-ℤ◌, ltb, ◌==◌, if◌then◌else◌, update,
  for_range,
}

pub record Process : Type 0 where
  pub process_id : ℕ
  pub arrival_time : ℕ
  pub burst_time : ℕ
  pub remaining_time : ℕ
  pub waiting_time : ℤ
  pub turnaround_time : ℤ

abbrev pub time_quantum : ℕ
time_quantum = 2

-- The array, and the locals of `round_robin_scheduling`.
pub record RoundRobinState : Type 0 where
  pub processes : ℕ → Process
  pub current_time : ℕ
  pub total_waiting_time : ℤ
  pub total_turnaround_time : ℤ
  pub completed : ℕ

-- What a process gets in one turn.
abbrev pub execute_time : ℕ → ℕ
execute_time remaining = if ltb remaining time_quantum then remaining else time_quantum

-- What is written for a process that is done.
unfoldable pub finish : ℕ → ℕ → Process → Process
finish now remaining p =
    let turnaround = pos now -ℤ pos p.arrival_time in
    record p {
      remaining_time = remaining;
      waiting_time = turnaround -ℤ pos p.burst_time;
      turnaround_time = turnaround;
    }

-- The turn of process `i`.
unfoldable pub take_turn : ℕ → RoundRobinState → RoundRobinState
unfolding finish
take_turn i s =
    let p = s.processes i in
    let remaining = p.remaining_time - execute_time p.remaining_time in
    let now = s.current_time + execute_time p.remaining_time in
    let done = finish now remaining p in
    if ltb 0 p.remaining_time
    then (if remaining == 0
        then record {
          processes = update s.processes i done;
          current_time = now;
          total_waiting_time = s.total_waiting_time +ℤ done.waiting_time;
          total_turnaround_time = s.total_turnaround_time +ℤ done.turnaround_time;
          completed = s.completed + 1;
        }
        else record s {
          processes = update s.processes i (record p { remaining_time = remaining });
          current_time = now;
        })
    else s

-- The body of the `while` loop: a turn for each process.
unfoldable pub all_turns : ℕ → RoundRobinState → RoundRobinState
unfolding for_range take_turn
all_turns n s = for_range n 0 take_turn s

-- The `while` loop, with fuel; `none` means that the fuel ran out.
unfoldable pub round_robin_loop : ℕ → ℕ → RoundRobinState → Option RoundRobinState
unfolding all_turns
round_robin_loop zero n s = none
round_robin_loop (suc fuel) n s =
    let rest = round_robin_loop fuel n (all_turns n s) in if ltb s.completed n then rest else some s

unfoldable pub round_robin_scheduling : ℕ → (ℕ → Process) → ℕ → Option RoundRobinState
unfolding round_robin_loop
round_robin_scheduling fuel processes n = round_robin_loop fuel n (record {
  processes = processes;
  current_time = 0;
  total_waiting_time = pos 0;
  total_turnaround_time = pos 0;
  completed = 0;
})
