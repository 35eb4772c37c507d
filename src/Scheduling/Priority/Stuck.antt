-- ===== src/Scheduling/Priority/Stuck.antt =====
-- What priority_scheduling does with a process that has no work.
use os_exploring.Common.{
  ℕ, zero, suc, ◌+◌, ◌-◌, ◌<◌, ◌≡◌, refl, inl, inr, true, false, none, arith, ltb, ap, ◌==◌,
  Option-cases, update, count_range-ext, count_range-le, count_range-update,
}
use os_exploring.Scheduling.Progress.{zeros, zeros-update}
use os_exploring.Scheduling.Priority.{
  Process, PriorityState, find_highest_priority, execute, priority_step, priority_loop,
  priority_scheduling,
}
use os_exploring.Scheduling.Priority.Rounds.{bursts, bursts-execute, find_highest_priority_lem}

-- The processes that had no work from the start are done and were never counted.
abbrev IsBehind : ℕ → ℕ → PriorityState → Type 0
IsBehind n idle s = s.completed + idle ≡ zeros n (bursts s)

execute-IsBehind :
    (n idle i : ℕ) (s : PriorityState)
    → i < n
    → 0 < bursts s i
    → IsBehind n idle s
    → IsBehind n idle (execute i s)
unfolding execute
execute-IsBehind n idle i s below busy h =
    let count = zeros-update n (bursts s) i (bursts s i - 1) below busy in
    let same =
      count_range-ext n (λ j. bursts (execute i s) j == 0)
        (λ j. update (bursts s) i (bursts s i - 1) j == 0)
        (λ j l. ap (λ x. x == 0) (bursts-execute i s j)) in
    ground (arith, h, count, same)

priority_step-IsBehind :
    (n idle : ℕ) (s : PriorityState) → IsBehind n idle s → IsBehind n idle (priority_step n s)
unfolding priority_step
priority_step-IsBehind n idle s h = elim (Option-cases (find_highest_priority n s)) [
  | inl no_one ↦ rw (no_one, priority_step) h
  | inr (i, found) ↦
      let (below, ready, _) = find_highest_priority_lem n s i found in
      rw (found, priority_step) (execute-IsBehind n idle i s below (ground (arith, ready)) h)
]

priority_loop-none :
    (fuel n idle : ℕ) (s : PriorityState)
    → 0 < idle
    → IsBehind n idle s
    → priority_loop fuel n s ≡ none
unfolding priority_loop
priority_loop-none zero n idle s some_ h = refl
priority_loop-none (suc fuel) n idle s some_ h =
    let at_most = count_range-le n (λ i. bursts s i == 0) in
    let open_ : ltb s.completed n ≡ true = ground (arith, h, at_most) in
    rw (open_, priority_loop)
      (priority_loop-none fuel n idle (priority_step n s) some_ (priority_step-IsBehind n idle s h))

zeros-positive : (n : ℕ) (left : ℕ → ℕ) (i : ℕ) → i < n → left i ≡ 0 → 0 < zeros n left
zeros-positive n left i below e =
    let more = count_range-update n (update (λ k. left k == 0) i false) i below (ground arith) in
    let same =
      count_range-ext n (update (update (λ k. left k == 0) i false) i true) (λ k. left k == 0)
        (λ k l. ground (arith, e)) in
    omega (arith, more, same)

-- If one of the processes has no work to begin with, the scheduler never returns, whatever the fuel.
pub priority_scheduling-none :
    (fuel n i : ℕ) (ps : ℕ → Process)
    → i < n
    → (ps i).burst_time ≡ 0
    → priority_scheduling fuel ps n ≡ none
unfolding priority_scheduling
priority_scheduling-none fuel n i ps below e =
    let left : ℕ → ℕ = λ k. (ps k).burst_time in
    priority_loop-none fuel n (zeros n left)
      (record {
        processes = ps;
        current_time = 0;
        completed = 0;
        total_waiting_time = 0;
        total_turnaround_time = 0;
      })
      (zeros-positive n left i below e) (omega arith)
