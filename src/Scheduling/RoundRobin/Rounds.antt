-- ===== src/Scheduling/RoundRobin/Rounds.antt =====
-- The rounds of round_robin_scheduling, and when the loop ends.
use os_exploring.Common.{
  sum_range, ℕ, zero, suc, ◌-◌, ◌*◌, ◌≤◌, ◌<◌, ◌≡◌, refl, sym, inl, inr, false, some, arith, pos,
  ltb, ◌==◌, Bool-cases, if◌then◌else◌, for_range_inv, count_range-none, count_range-all,
}
use os_exploring.Scheduling.Progress.{zeros-all}
use os_exploring.Scheduling.RoundRobin.{
  Process, RoundRobinState, take_turn, all_turns, round_robin_loop, round_robin_scheduling,
}
use os_exploring.Scheduling.RoundRobin.Turns.{
  remaining, IsBooked, IsSound, remaining-take_turn, take_turn-IsSound,
}

-- A round gives each process one turn.
pub all_turns-IsSound :
    (n : ℕ) (ps : ℕ → Process) (s : RoundRobinState)
    → IsSound n ps s
    → IsSound n ps (all_turns n s)
      × ((k : ℕ) → k < n → remaining (all_turns n s) k ≡ remaining s k - 2)
unfolding all_turns
all_turns-IsSound n ps s h =
    let (sound, turns) =
      for_range_inv
        (λ i t.
          IsSound n ps t
          × ((k : ℕ) → remaining t k ≡ (if ltb k i then remaining s k - 2 else remaining s k)))
        take_turn n
        (λ i t below (sound, turns). (
          take_turn-IsSound n ps i t below sound,
          λ k. ground (arith, remaining-take_turn i t k, turns k, turns i),
        ))
        n 0 s (omega arith) (h, λ k. ground arith) in
    (sound, λ k l. ground (arith, turns k))

round_robin_loop_ends :
    (fuel rounds n : ℕ) (ps : ℕ → Process) (s : RoundRobinState)
    → IsSound n ps s
    → ((k : ℕ) → k < n → remaining s k ≤ 2 * rounds)
    → rounds < fuel
    → (f : RoundRobinState) × (round_robin_loop fuel n s ≡ some f)
      × IsSound n ps f
      × (n ≤ f.completed)
unfolding round_robin_loop
round_robin_loop_ends zero rounds n ps s h short enough = absurd (omega arith)
round_robin_loop_ends (suc fuel) zero n ps s h short enough =
    let all = count_range-all n (λ i. remaining s i == 0) (λ i l. ground (arith, short i l)) in
    let done : ltb s.completed n ≡ false = ground (arith, h.counted, all) in
    (s, rw (done, round_robin_loop), h, omega (arith, h.counted, all))
round_robin_loop_ends (suc fuel) (suc rounds) n ps s h short enough =
    elim (Bool-cases (ltb s.completed n)) [
      | inr done ↦ (s, rw (done, round_robin_loop), h, ground (arith, done))
      | inl open_ ↦
          let (sound, turns) = all_turns-IsSound n ps s h in
          let (f, ran, sound_, all) =
            round_robin_loop_ends fuel rounds n ps (all_turns n s) sound
              (λ k l. omega (arith, turns k l, short k l)) (omega arith) in
          (f, rw (open_, round_robin_loop) ran, sound_, all)
    ]

-- What the loop leaves behind: every process is done, with its times in order, and the processor was
-- busy all the time.
pub record IsFinished (n : ℕ) (ps : ℕ → Process) (f : RoundRobinState) : Type 0 where
  pub done : (i : ℕ) → i < n → remaining f i ≡ 0
  pub booked : (i : ℕ) → i < n → IsBooked (ps i) (f.processes i) f.current_time
  pub busy : f.current_time ≡ sum_range n (λ i. (ps i).remaining_time)

sum_range_zero : (n : ℕ) (f : ℕ → ℕ) → ((i : ℕ) → i < n → f i ≡ 0) → sum_range n f ≡ 0
unfolding sum_range
sum_range_zero zero f h = refl
sum_range_zero (suc n) f h =
    omega (arith, h n (omega arith), sum_range_zero n f (λ i l. h i (omega arith)))

-- If each process has work, and none more than for `rounds` turns, the scheduler returns within
-- `rounds` rounds. Then every process is done, the time is the sum of the work, and for each process
-- the waiting time and the burst add up to the turnaround time, which ends by that time.
pub round_robin_scheduling_ends :
    (fuel rounds n : ℕ) (ps : ℕ → Process)
    → ((i : ℕ) → i < n → 0 < (ps i).remaining_time)
    → ((i : ℕ) → i < n → (ps i).remaining_time ≤ 2 * rounds)
    → rounds < fuel
    → (f : RoundRobinState) × (round_robin_scheduling fuel ps n ≡ some f) × IsFinished n ps f
unfolding round_robin_scheduling
round_robin_scheduling_ends fuel rounds n ps work short enough =
    let none_done =
      count_range-none n (λ i. (ps i).remaining_time == 0) (λ i l. ground (arith, work i l)) in
    let (f, ran, h, all) =
      round_robin_loop_ends fuel rounds n ps
        (record {
          processes = ps;
          current_time = 0;
          total_waiting_time = pos 0;
          total_turnaround_time = pos 0;
          completed = 0;
        })
        (record {
          counted = sym none_done;
          worked = omega arith;
          same_arrival = λ i. refl;
          same_burst = λ i. refl;
          booked = λ i l e. absurd (omega (arith, work i l, e));
        })
        short enough in
    let done : (i : ℕ) → i < n → remaining f i ≡ 0 =
      λ i l. zeros-all n (remaining f) i (omega (arith, h.counted, all)) l in
    (
      f,
      ran,
      record {
        done = done;
        booked = λ i l. h.booked i l (done i l);
        busy = omega (arith, h.worked, sum_range_zero n (remaining f) done);
      },
    )
