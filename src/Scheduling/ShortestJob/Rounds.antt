-- ===== src/Scheduling/ShortestJob/Rounds.antt =====
-- The rounds of sjf_scheduling: which job runs, the books, and that the loop ends.
use os_exploring.Common.{
  sum_range, sum_range-ext, sum_range-update, int_max, ℕ, zero, suc, ◌+◌, ◌-◌, ◌≤◌, ◌<◌, ◌≡◌, refl,
  inl, inr, true, none, some, arith, pos, ◌==◌, Bool-cases, Option-cases, update, count_range-none,
  count_range-le, sym, for_range, for_range_inv,
}
use os_exploring.Scheduling.Selection.{select_below-some, select_below-none}
use os_exploring.Scheduling.Progress.{zeros, zeros-update, zeros-lt, zeros-all, rounds_left}
use os_exploring.Scheduling.ShortestJob.{
  Process, SjfState, is_waiting, find_shortest_job, run_job, sjf_step, sjf_loop, sjf_scheduling,
}

-- The job selected has arrived, is not done, and no other such job has less left to run.
pub find_shortest_job_lem :
    (n : ℕ) (s : SjfState) (i : ℕ)
    → find_shortest_job n s ≡ some i
    → (i < n)
      × (is_waiting s i ≡ true)
      × ((j : ℕ) → j < n → is_waiting s j ≡ true → s.remaining_time i ≤ s.remaining_time j)
unfolding find_shortest_job
find_shortest_job_lem n s i e =
    let (below, ready, least) =
      select_below-some int_max n (is_waiting s) (λ j. pos (s.remaining_time j)) i e in
    (below, ready, λ j l w. omega (arith, least j l w))

-- A workload that the scheduler can finish: each job takes some time, less than INT_MAX, and has
-- arrived by `last`.
pub record IsRunnable (n last : ℕ) (ps : ℕ → Process) : Type 0 where
  pub busy : (i : ℕ) → i < n → 0 < (ps i).burst_time
  pub selectable : (i : ℕ) → i < n → (ps i).burst_time < 2147483647
  pub arrived : (i : ℕ) → i < n → (ps i).arrival_time ≤ last

-- What holds before each round. A job has run at most for as long as it has been there.
pub record IsSound (n : ℕ) (ps : ℕ → Process) (s : SjfState) : Type 0 where
  pub counted : s.completed ≡ zeros n s.remaining_time
  pub same_arrival : (i : ℕ) → (s.processes i).arrival_time ≡ (ps i).arrival_time
  pub same_burst : (i : ℕ) → (s.processes i).burst_time ≡ (ps i).burst_time
  pub within : (i : ℕ) → i < n → s.remaining_time i ≤ (ps i).burst_time
  pub ran :
      (i : ℕ)
      → i < n
      → (ps i).burst_time ≤ s.remaining_time i + (s.current_time - (ps i).arrival_time)
  pub booked :
      (i : ℕ)
      → i < n
      → s.remaining_time i ≡ 0
      → ((s.processes i).waiting_time + (ps i).burst_time ≡ (s.processes i).turnaround_time)
        × ((ps i).arrival_time + (s.processes i).turnaround_time ≤ s.current_time)

remaining_time-run_job :
    (i : ℕ) (s : SjfState)
    → (run_job i s).remaining_time ≡ update s.remaining_time i (s.remaining_time i - 1)
unfolding run_job
remaining_time-run_job i s = ground arith

run_job-IsSound :
    (n : ℕ) (ps : ℕ → Process) (s : SjfState) (i : ℕ)
    → i < n
    → is_waiting s i ≡ true
    → IsSound n ps s
    → IsSound n ps (run_job i s)
unfolding run_job
run_job-IsSound n ps s i below ready h =
    let busy : 0 < s.remaining_time i = ground (arith, ready) in
    let count = zeros-update n s.remaining_time i (s.remaining_time i - 1) below busy in
    record {
      counted = ground (arith, h.counted, count);
      same_arrival = λ j. ground (arith, h.same_arrival j);
      same_burst = λ j. ground (arith, h.same_burst j);
      within = λ j l. ground (arith, h.within j l);
      ran = λ j l. ground (arith, h.ran j l, h.same_arrival j, ready);
      booked =
          λ j l e. ground (arith, h.booked j l, h.ran j l, h.same_arrival j, h.same_burst j, ready);
    }

run_job-rounds_left :
    (n last : ℕ) (s : SjfState) (i : ℕ)
    → i < n
    → 0 < s.remaining_time i
    → rounds_left n last (run_job i s).current_time (run_job i s).remaining_time + 1
      ≤ rounds_left n last s.current_time s.remaining_time
unfolding run_job
run_job-rounds_left n last s i below busy =
    let tick : (run_job i s).current_time ≡ s.current_time + 1 = ground arith in
    let less = sum_range-update n s.remaining_time i (s.remaining_time i - 1) below in
    rw (tick, remaining_time-run_job i s) (omega (arith, less))

-- If no job can run though some are not done, one is still to arrive.
idle-before_last :
    (n last : ℕ) (ps : ℕ → Process) (s : SjfState)
    → IsRunnable n last ps
    → IsSound n ps s
    → s.completed < n
    → find_shortest_job n s ≡ none
    → s.current_time < last
unfolding find_shortest_job
idle-before_last n last ps s r h open_ idle =
    let (i, below, busy) = zeros-lt n s.remaining_time (omega (arith, h.counted)) in
    elim (Bool-cases (is_waiting s i)) [
      | inl ready ↦
          let high =
            select_below-none int_max n (is_waiting s) (λ j. pos (s.remaining_time j)) i idle below
              ready in
          absurd (ground (arith, high, h.within i below, r.selectable i below))
      | inr waits ↦ ground (arith, waits, busy, h.same_arrival i, r.arrived i below)
    ]

-- Before the last round, a round keeps what holds and lowers the number of rounds left.
sjf_step-IsSound :
    (n last : ℕ) (ps : ℕ → Process) (s : SjfState)
    → IsRunnable n last ps
    → IsSound n ps s
    → s.completed < n
    → IsSound n ps (sjf_step n s)
      × (rounds_left n last (sjf_step n s).current_time (sjf_step n s).remaining_time + 1
          ≤ rounds_left n last s.current_time s.remaining_time)
unfolding sjf_step
sjf_step-IsSound n last ps s r h open_ = elim (Option-cases (find_shortest_job n s)) [
  | inl idle ↦
      let early = idle-before_last n last ps s r h open_ idle in
      rw (idle, sjf_step)
        (
          record {
            counted = h.counted;
            same_arrival = h.same_arrival;
            same_burst = h.same_burst;
            within = h.within;
            ran = λ i l. omega (arith, h.ran i l);
            booked = λ i l e. let (w, b) = h.booked i l e in (w, omega (arith, b));
          },
          omega (arith, early),
        )
  | inr (i, found) ↦
      let (below, ready, _) = find_shortest_job_lem n s i found in
      rw (found, sjf_step)
        (
          run_job-IsSound n ps s i below ready h,
          run_job-rounds_left n last s i below (ground (arith, ready)),
        )
]

sjf_loop_ends :
    (fuel n last : ℕ) (ps : ℕ → Process) (s : SjfState)
    → IsRunnable n last ps
    → IsSound n ps s
    → rounds_left n last s.current_time s.remaining_time < fuel
    → (f : SjfState) × (sjf_loop fuel n s ≡ some f) × IsSound n ps f × (f.completed ≡ n)
unfolding sjf_loop
sjf_loop_ends zero n last ps s r h enough = absurd (omega arith)
sjf_loop_ends (suc fuel) n last ps s r h enough = elim (Bool-cases (s.completed == n)) [
  | inl done ↦ (s, rw (done, sjf_loop), h, ground (arith, done))
  | inr open_ ↦
      let at_most = count_range-le n (λ i. s.remaining_time i == 0) in
      let (sound, less) =
        sjf_step-IsSound n last ps s r h (ground (arith, open_, h.counted, at_most)) in
      let (f, e, sound', all) =
        sjf_loop_ends fuel n last ps (sjf_step n s) r sound (omega (arith, less)) in
      (f, rw (open_, sjf_loop) e, sound', all)
]

-- The array of remaining times that the first loop fills.
abbrev filled : (ℕ → Process) → ℕ → ℕ → ℕ
unfolding for_range
filled ps n = for_range n 0 (λ i r. update r i (ps i).burst_time) (λ _. 0)

filled-burst_time : (ps : ℕ → Process) (n k : ℕ) → k < n → filled ps n k ≡ (ps k).burst_time
unfolding filled
filled-burst_time ps n =
    for_range_inv (λ m (r : ℕ → ℕ). (k : ℕ) → k < m → r k ≡ (ps k).burst_time) _ n
      (λ m r l h k below. ground (arith, h k)) n 0 (λ _. 0) (omega arith)
      (λ k l. absurd (omega arith))

-- The books at the end.
abbrev pub IsBooked : ℕ → (ℕ → Process) → SjfState → Type 0
IsBooked n ps f =
    (i : ℕ)
    → i < n
    → (f.remaining_time i ≡ 0)
      × ((f.processes i).waiting_time + (ps i).burst_time ≡ (f.processes i).turnaround_time)
      × ((ps i).arrival_time + (f.processes i).turnaround_time ≤ f.current_time)

-- If each job takes some time, less than INT_MAX, and arrives by `last`, the scheduler returns within
-- `last` rounds more than there is work, with every job completed. The waiting time written for each
-- job and the time it runs for add up to its turnaround time, which ends by the time at which the
-- scheduler stops.
pub sjf_scheduling_ends :
    (n last fuel : ℕ) (ps : ℕ → Process)
    → IsRunnable n last ps
    → sum_range n (λ i. (ps i).burst_time) + last < fuel
    → (f : SjfState) × (sjf_scheduling fuel ps n ≡ some f) × (f.completed ≡ n) × IsBooked n ps f
unfolding sjf_scheduling filled
sjf_scheduling_ends n last fuel ps r enough =
    let fill = filled-burst_time ps n in
    let none_done =
      count_range-none n (λ i. filled ps n i == 0) (λ i l. ground (arith, r.busy i l, fill i l)) in
    let work = sum_range-ext n (filled ps n) (λ i. (ps i).burst_time) fill in
    let (f, e, h, all) =
      sjf_loop_ends fuel n last ps
        (record {
          processes = ps;
          remaining_time = filled ps n;
          current_time = 0;
          completed = 0;
          total_waiting_time = 0;
          total_turnaround_time = 0;
        })
        r
        (record {
          counted = sym none_done;
          same_arrival = λ i. refl;
          same_burst = λ i. refl;
          within = λ i l. omega (arith, fill i l);
          ran = λ i l. omega (arith, fill i l);
          booked = λ i l z. absurd (omega (arith, r.busy i l, fill i l, z));
        })
        (omega (arith, enough, work)) in
    (
      f,
      e,
      all,
      λ i l.
          let z = zeros-all n f.remaining_time i (omega (arith, h.counted, all)) l in
          let (w, b) = h.booked i l z in (z, w, b),
    )
