-- ===== src/Scheduling/Priority/Rounds.antt =====
-- The rounds of priority_scheduling: which process runs, the invariant, and that the loop ends.
use os_exploring.Common.{
  sum_range, sum_range-ext, sum_range-update, ℕ, zero, suc, ◌+◌, ◌-◌, ◌≤◌, ◌<◌, ◌≡◌, refl, inl, inr,
  true, none, some, arith, int_max, ◌≤ℤ◌, ltb_ℤ, ltb, ap, ◌==◌, Bool-cases, Option-cases, update,
  count_range-ext, count_range-none, count_range-le, sym,
}
use os_exploring.Scheduling.Selection.{select_below-some, select_below-none}
use os_exploring.Scheduling.Progress.{zeros, zeros-update, zeros-lt, zeros-all, rounds_left}
use os_exploring.Scheduling.Priority.{
  Process, PriorityState, is_ready, find_highest_priority, execute, priority_step, priority_loop,
  priority_scheduling,
}

-- The process selected has arrived, is not done, and no other such process has a lower number.
pub find_highest_priority_lem :
    (n : ℕ) (s : PriorityState) (i : ℕ)
    → find_highest_priority n s ≡ some i
    → (i < n)
      × (is_ready (s.processes i) s.current_time ≡ true)
      × ((j : ℕ)
          → j < n
          → is_ready (s.processes j) s.current_time ≡ true
          → (s.processes i).priority ≤ℤ (s.processes j).priority)
unfolding find_highest_priority
find_highest_priority_lem n s i e =
    select_below-some int_max n (λ i. is_ready (s.processes i) s.current_time)
      (λ i. (s.processes i).priority) i e

abbrev pub bursts : PriorityState → ℕ → ℕ
bursts s i = (s.processes i).burst_time

-- A workload that the scheduler can finish: each process has something to do, a priority below
-- INT_MAX, and has arrived by `last`.
pub record IsRunnable (n last : ℕ) (ps : ℕ → Process) : Type 0 where
  pub busy : (i : ℕ) → i < n → 0 < (ps i).burst_time
  pub selectable : (i : ℕ) → i < n → ltb_ℤ (ps i).priority int_max ≡ true
  pub arrived : (i : ℕ) → i < n → (ps i).arrival_time ≤ last

-- What holds before each round.
pub record IsSound (n : ℕ) (ps : ℕ → Process) (s : PriorityState) : Type 0 where
  pub counted : s.completed ≡ zeros n (bursts s)
  pub same_arrival : (i : ℕ) → (s.processes i).arrival_time ≡ (ps i).arrival_time
  pub same_priority : (i : ℕ) → (s.processes i).priority ≡ (ps i).priority
  pub booked :
      (i : ℕ)
      → i < n
      → (s.processes i).burst_time ≡ 0
      → ((s.processes i).waiting_time ≡ (s.processes i).turnaround_time)
        × ((ps i).arrival_time + (s.processes i).turnaround_time ≤ s.current_time)

-- The books at the end.
abbrev pub IsBooked : ℕ → (ℕ → Process) → PriorityState → Type 0
IsBooked n ps f =
    (i : ℕ)
    → i < n
    → ((f.processes i).burst_time ≡ 0)
      × ((f.processes i).waiting_time ≡ (f.processes i).turnaround_time)
      × ((ps i).arrival_time + (f.processes i).turnaround_time ≤ f.current_time)

-- The bursts after a tick.
pub bursts-execute :
    (i : ℕ) (s : PriorityState) (j : ℕ)
    → bursts (execute i s) j ≡ update (bursts s) i (bursts s i - 1) j
unfolding execute
bursts-execute i s j = ground arith

execute-IsSound :
    (n : ℕ) (ps : ℕ → Process) (s : PriorityState) (i : ℕ)
    → i < n
    → is_ready (s.processes i) s.current_time ≡ true
    → IsSound n ps s
    → IsSound n ps (execute i s)
unfolding execute
execute-IsSound n ps s i below ready h =
    let busy : 0 < bursts s i = ground (arith, ready) in
    let count = zeros-update n (bursts s) i (bursts s i - 1) below busy in
    let same =
      count_range-ext n (λ j. bursts (execute i s) j == 0)
        (λ j. update (bursts s) i (bursts s i - 1) j == 0)
        (λ j l. ap (λ x. x == 0) (bursts-execute i s j)) in
    record {
      counted = ground (arith, h.counted, count, same);
      same_arrival = λ j. ground (arith, h.same_arrival j);
      same_priority = λ j. ground (arith, h.same_priority j);
      booked = λ j l e. ground (arith, h.booked j l, h.same_arrival j, ready);
    }

execute-rounds_left :
    (n last : ℕ) (s : PriorityState) (i : ℕ)
    → i < n
    → 0 < bursts s i
    → rounds_left n last (execute i s).current_time (bursts (execute i s)) + 1
      ≤ rounds_left n last s.current_time (bursts s)
unfolding execute
execute-rounds_left n last s i below busy =
    let tick : (execute i s).current_time ≡ s.current_time + 1 = ground arith in
    let same =
      sum_range-ext n (bursts (execute i s)) (update (bursts s) i (bursts s i - 1))
        (λ j l. bursts-execute i s j) in
    omega (arith, tick, same, sum_range-update n (bursts s) i (bursts s i - 1) below)

-- If no process can run though some are not done, one is still to arrive.
idle-before_last :
    (n last : ℕ) (ps : ℕ → Process) (s : PriorityState)
    → IsRunnable n last ps
    → IsSound n ps s
    → s.completed < n
    → find_highest_priority n s ≡ none
    → s.current_time < last
unfolding find_highest_priority
idle-before_last n last ps s r h open_ idle =
    let (i, below, busy) = zeros-lt n (bursts s) (omega (arith, h.counted)) in
    let prio : ltb_ℤ (s.processes i).priority int_max ≡ true =
      rw (h.same_priority i) (r.selectable i below) in
    elim (Bool-cases (is_ready (s.processes i) s.current_time)) [
      | inl ready ↦
          let high =
            select_below-none int_max n (λ j. is_ready (s.processes j) s.current_time)
              (λ j. (s.processes j).priority) i idle below ready in
          absurd (ground (arith, high, prio))
      | inr waits ↦ ground (arith, waits, busy, h.same_arrival i, r.arrived i below)
    ]

-- Before the last round, a round keeps what holds and lowers the number of rounds left.
priority_step-IsSound :
    (n last : ℕ) (ps : ℕ → Process) (s : PriorityState)
    → IsRunnable n last ps
    → IsSound n ps s
    → s.completed < n
    → IsSound n ps (priority_step n s)
      × (rounds_left n last (priority_step n s).current_time (bursts (priority_step n s)) + 1
          ≤ rounds_left n last s.current_time (bursts s))
unfolding priority_step
priority_step-IsSound n last ps s r h open_ = elim (Option-cases (find_highest_priority n s)) [
  | inl idle ↦
      let early = idle-before_last n last ps s r h open_ idle in
      rw (idle, priority_step)
        (
          record {
            counted = h.counted;
            same_arrival = h.same_arrival;
            same_priority = h.same_priority;
            booked = λ i l e. let (w, b) = h.booked i l e in (w, omega (arith, b));
          },
          omega (arith, early),
        )
  | inr (i, found) ↦
      let (below, ready, _) = find_highest_priority_lem n s i found in
      rw (found, priority_step)
        (
          execute-IsSound n ps s i below ready h,
          execute-rounds_left n last s i below (ground (arith, ready)),
        )
]

priority_loop_ends :
    (fuel n last : ℕ) (ps : ℕ → Process) (s : PriorityState)
    → IsRunnable n last ps
    → IsSound n ps s
    → rounds_left n last s.current_time (bursts s) < fuel
    → (f : PriorityState) × (priority_loop fuel n s ≡ some f) × IsSound n ps f × (n ≤ f.completed)
unfolding priority_loop
priority_loop_ends zero n last ps s r h enough = absurd (omega arith)
priority_loop_ends (suc fuel) n last ps s r h enough = elim (Bool-cases (ltb s.completed n)) [
  | inl open_ ↦
      let (sound, less) = priority_step-IsSound n last ps s r h (ground (arith, open_)) in
      let (f, e, sound', all) =
        priority_loop_ends fuel n last ps (priority_step n s) r sound (omega (arith, less)) in
      (f, rw (open_, priority_loop) e, sound', all)
  | inr done ↦ (s, rw (done, priority_loop), h, ground (arith, done))
]

-- If each process has work, a priority below INT_MAX and arrives by `last`, the scheduler returns
-- within `last` rounds more than there is work, with every process completed and done. The waiting
-- time written for each is its whole turnaround time, its own run included, and the turnaround time
-- ends by the time at which the scheduler stops.
pub priority_scheduling_ends :
    (n last fuel : ℕ) (ps : ℕ → Process)
    → IsRunnable n last ps
    → sum_range n (λ i. (ps i).burst_time) + last < fuel
    → (f : PriorityState) × (priority_scheduling fuel ps n ≡ some f)
      × (f.completed ≡ n)
      × IsBooked n ps f
unfolding priority_scheduling
priority_scheduling_ends n last fuel ps r enough =
    let none_done =
      count_range-none n (λ i. (ps i).burst_time == 0) (λ i l. ground (arith, r.busy i l)) in
    let (f, e, h, all) =
      priority_loop_ends fuel n last ps
        (record {
          processes = ps;
          current_time = 0;
          completed = 0;
          total_waiting_time = 0;
          total_turnaround_time = 0;
        })
        r
        (record {
          counted = sym none_done;
          same_arrival = λ i. refl;
          same_priority = λ i. refl;
          booked = λ i l z. absurd (omega (arith, r.busy i l, z));
        })
        (omega (arith, enough)) in
    let at_most = count_range-le n (λ i. (f.processes i).burst_time == 0) in
    (
      f,
      e,
      omega (arith, h.counted, all, at_most),
      λ i l.
          let z = zeros-all n (bursts f) i (omega (arith, h.counted, all)) l in
          let (w, b) = h.booked i l z in (z, w, b),
    )
