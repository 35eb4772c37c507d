-- ===== src/Scheduling/RoundRobin/Turns.antt =====
-- The turns of round_robin_scheduling: what each process gets, and the books.
use os_exploring.Common.{
  sum_range, sum_range-ext, sum_range-update, ℕ, ◌+◌, ◌-◌, ◌≤◌, ◌<◌, ◌≡◌, ap, arith, pos, ◌+ℤ◌,
  ◌≤ℤ◌, int_laws, ◌==◌, if◌then◌else◌, dec_lt, update, subst, count_range-ext, ℕ_discrete, ◌≢◌,
}
use os_exploring.Scheduling.Progress.{zeros, zeros-update}
use os_exploring.Scheduling.RoundRobin.{Process, RoundRobinState, execute_time, finish, take_turn}

-- The time that each process still needs.
abbrev pub remaining : RoundRobinState → ℕ → ℕ
remaining s i = (s.processes i).remaining_time

-- The books of a process that is done at time `now` at the latest.
pub record IsBooked (p q : Process) (now : ℕ) : Type 0 where
  pub sums : q.waiting_time +ℤ pos p.burst_time ≡ q.turnaround_time
  pub by_now : pos p.arrival_time +ℤ q.turnaround_time ≤ℤ pos now

-- What holds before each turn: the processor was never idle, so the time is the work that is done.
pub record IsSound (n : ℕ) (ps : ℕ → Process) (s : RoundRobinState) : Type 0 where
  pub counted : s.completed ≡ zeros n (remaining s)
  pub worked : s.current_time + sum_range n (remaining s) ≡ sum_range n (λ i. (ps i).remaining_time)
  pub same_arrival : (i : ℕ) → (s.processes i).arrival_time ≡ (ps i).arrival_time
  pub same_burst : (i : ℕ) → (s.processes i).burst_time ≡ (ps i).burst_time
  pub booked : (i : ℕ) → i < n → remaining s i ≡ 0 → IsBooked (ps i) (s.processes i) s.current_time

pub remaining-take_turn :
    (i : ℕ) (s : RoundRobinState) (k : ℕ)
    → remaining (take_turn i s) k ≡ update (remaining s) i (remaining s i - 2) k
unfolding take_turn
remaining-take_turn i s k = ground arith

current_time-take_turn :
    (i : ℕ) (s : RoundRobinState)
    → (take_turn i s).current_time + (remaining s i - 2) ≡ s.current_time + remaining s i
unfolding take_turn
current_time-take_turn i s = ground arith

completed-take_turn :
    (i : ℕ) (s : RoundRobinState)
    → 0 < remaining s i
    → (take_turn i s).completed ≡ s.completed + (if remaining s i - 2 == 0 then 1 else 0)
unfolding take_turn
completed-take_turn i s busy = ground arith

take_turn-idle : (i : ℕ) (s : RoundRobinState) → remaining s i ≡ 0 → take_turn i s ≡ s
unfolding take_turn
take_turn-idle i s e = ground arith

IsBooked-later :
    (p q : Process) (now later : ℕ) → now ≤ later → IsBooked p q now → IsBooked p q later
IsBooked-later p q now later le b = record { sums = b.sums; by_now = omega (int_laws, b.by_now) }

-- A turn of another process leaves alone what is known of a process.
other_turn-IsBooked :
    (i : ℕ) (s : RoundRobinState) (k : ℕ) (p : Process)
    → i ≢ k
    → (remaining s k ≡ 0 → IsBooked p (s.processes k) s.current_time)
    → remaining (take_turn i s) k ≡ 0
    → IsBooked p ((take_turn i s).processes k) (take_turn i s).current_time
other_turn-IsBooked i s k p other before done =
    let same : (take_turn i s).processes k ≡ s.processes k = unfold take_turn in (ground arith) in
    rw same (
      IsBooked-later p (s.processes k) s.current_time (take_turn i s).current_time
        (omega (arith, current_time-take_turn i s))
        (before (cc (ap (λ (q : Process). q.remaining_time) same, done))))

finish-IsBooked :
    (now left : ℕ) (p q : Process)
    → q.arrival_time ≡ p.arrival_time
    → q.burst_time ≡ p.burst_time
    → IsBooked p (finish now left q) now
unfolding finish
finish-IsBooked now left p q arrival burst = record {
  sums = rw burst (omega int_laws);
  by_now = rw arrival (omega int_laws);
}

-- The turn in which a process is done books it.
own_turn-IsBooked :
    (i : ℕ) (s : RoundRobinState) (p : Process)
    → 0 < remaining s i
    → (s.processes i).arrival_time ≡ p.arrival_time
    → (s.processes i).burst_time ≡ p.burst_time
    → remaining (take_turn i s) i ≡ 0
    → IsBooked p ((take_turn i s).processes i) (take_turn i s).current_time
own_turn-IsBooked i s p busy arrival burst done =
    let now = s.current_time + execute_time (remaining s i) in
    let last : remaining s i - 2 ≡ 0 = ground (arith, remaining-take_turn i s i, done) in
    let at : (take_turn i s).current_time ≡ now = unfold take_turn in (ground arith) in
    let is : (take_turn i s).processes i ≡ finish now 0 (s.processes i) =
      unfold take_turn in (ground arith) in
    rw (at, is) (finish-IsBooked now 0 p (s.processes i) arrival burst)

pub take_turn-IsSound :
    (n : ℕ) (ps : ℕ → Process) (i : ℕ) (s : RoundRobinState)
    → i < n
    → IsSound n ps s
    → IsSound n ps (take_turn i s)
take_turn-IsSound n ps i s below h = elim (dec_lt 0 (remaining s i)) [
  | no idle ↦ rw (take_turn-idle i s (omega arith)) h
  | yes busy ↦
      let moved =
        sum_range-ext n (remaining (take_turn i s)) (update (remaining s) i (remaining s i - 2))
          (λ k l. remaining-take_turn i s k) in
      let less = sum_range-update n (remaining s) i (remaining s i - 2) below in
      let same =
        count_range-ext n (λ k. remaining (take_turn i s) k == 0)
          (λ k. update (remaining s) i (remaining s i - 2) k == 0)
          (λ k l. rw (remaining-take_turn i s k)) in
      let more = zeros-update n (remaining s) i (remaining s i - 2) below busy in
      record {
        counted = cc (completed-take_turn i s busy, same, more, h.counted);
        worked = omega (arith, h.worked, current_time-take_turn i s, moved, less);
        same_arrival = λ k. unfold take_turn finish in (ground (arith, h.same_arrival k));
        same_burst = λ k. unfold take_turn finish in (ground (arith, h.same_burst k));
        booked = λ k l. elim (ℕ_discrete i k) [
          | yes same_ ↦
              subst
                (λ j.
                  remaining (take_turn i s) j ≡ 0
                  → IsBooked (ps j) ((take_turn i s).processes j) (take_turn i s).current_time)
                same_ (own_turn-IsBooked i s (ps i) busy (h.same_arrival i) (h.same_burst i))
          | no other ↦ other_turn-IsBooked i s k (ps k) other (h.booked k l)
        ];
      }
]
