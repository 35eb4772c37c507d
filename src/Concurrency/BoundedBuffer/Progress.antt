-- ===== src/Concurrency/BoundedBuffer/Progress.antt =====
-- In every state that a schedule leads to some thread can step.
use os_exploring.Common.{
  ℕ, ◌+◌, ◌-◌, ◌<◌, ◌≡◌, refl, inl, inr, Bool, true, false, some, arith, ℤ, Bool-cases,
  Option-cases, not, ltb, find_range, find_range-some, find_range-none, update, count_range-none,
  count_range-pos,
}
use os_exploring.Concurrency.BoundedBuffer.{
  Phase, idle, may_put, putting, wrote, filled, may_take, taking, took, emptied, SharedBuffer, Call,
  buffer_size, thread_step, phase_step, call_step, lock_step, unlock_step, write_step, read_step,
  post_filled, post_empty, product_item, consume_item, initialize_buffer, Reach,
}
use os_exploring.Concurrency.BoundedBuffer.Safety.{Reach-IsBalanced}
use os_exploring.Concurrency.BoundedBuffer.Books.{
  will_put, has_put, will_take, has_taken, holds, count_threads, IsBalanced,
}

abbrev is_idle : Phase → Bool
is_idle idle = true
is_idle _ = false

holds-step :
    (p : Phase) (call : Call) (i : ℕ) (s : SharedBuffer)
    → holds p ≡ true
    → (is_idle p ≡ false) × ((t : SharedBuffer) × (phase_step p call i s ≡ some t))
unfolding phase_step write_step read_step unlock_step
holds-step (putting x) call i s h = (refl, (_, refl))
holds-step wrote call i s h = (refl, (_, refl))
holds-step taking call i s h = (refl, (_, refl))
holds-step (took x) call i s h = (refl, (_, refl))
holds-step idle call i s h = cc
holds-step (may_put x) call i s h = cc
holds-step filled call i s h = cc
holds-step may_take call i s h = cc
holds-step (emptied x) call i s h = cc

unlocked-step :
    (p : Phase) (call : Call) (i : ℕ) (s : SharedBuffer)
    → s.locked ≡ false
    → is_idle p ≡ false
    → (t : SharedBuffer) × (phase_step p call i s ≡ some t)
unfolding phase_step lock_step write_step read_step unlock_step post_filled post_empty
unlocked-step idle call i s free h = cc
unlocked-step (may_put x) call i s free h =
    (record s { locked = true; threads = update s.threads i (putting x) }, rw free)
unlocked-step (putting x) call i s free h = (_, refl)
unlocked-step wrote call i s free h = (_, refl)
unlocked-step filled call i s free h = (_, refl)
unlocked-step may_take call i s free h =
    (record s { locked = true; threads = update s.threads i taking }, rw free)
unlocked-step taking call i s free h = (_, refl)
unlocked-step (took x) call i s free h = (_, refl)
unlocked-step (emptied x) call i s free h = (_, refl)

-- A thread that is not idle: some thread that is not idle can step, whatever its role.
busy-step :
    {n : ℕ} (roles : ℕ → Call) {s : SharedBuffer} (i : ℕ)
    → IsBalanced n s
    → i < n
    → is_idle (s.threads i) ≡ false
    → (j : ℕ) × (j < n) × (t : SharedBuffer) × (thread_step (roles j) j s ≡ some t)
unfolding thread_step
busy-step {n} roles {s} i b below busy = elim (Bool-cases s.locked) [
  | inr free ↦ let (t, e) = unlocked-step (s.threads i) (roles i) i s free busy in (i, below, t, e)
  | inl held ↦
      let one : 0 < count_threads n holds s.threads = ground (arith, b.mutex, held) in
      let (j, low, h) = count_range-pos n (λ k. holds (s.threads k)) one in
      let (_, (t, e)) = holds-step (s.threads j) (roles j) j s h in (j, low, t, e)
]

idle-phase : (p : Phase) → is_idle p ≡ true → p ≡ idle
idle-phase idle e = refl
idle-phase (may_put x) e = absurd (cc e)
idle-phase (putting x) e = absurd (cc e)
idle-phase wrote e = absurd (cc e)
idle-phase filled e = absurd (cc e)
idle-phase may_take e = absurd (cc e)
idle-phase taking e = absurd (cc e)
idle-phase (took x) e = absurd (cc e)
idle-phase (emptied x) e = absurd (cc e)

-- All threads are idle: the slots and the items make up the buffer.
idle-slots :
    (n : ℕ) (s : SharedBuffer)
    → IsBalanced n s
    → ((j : ℕ) → j < n → s.threads j ≡ idle)
    → s.empty_slots + s.filled_slots ≡ buffer_size
idle-slots n s b all =
    let none_of = λ (test : Phase → Bool) (e : test idle ≡ false).
      count_range-none n (λ k. test (s.threads k)) (λ j low. rw (all j low) e) in
    let p = none_of will_put refl in
    let q = none_of has_put refl in
    let r = none_of will_take refl in
    let t = none_of has_taken refl in omega (arith, b.slots, b.stored, p, q, r, t)

-- The semaphore that the call waits for.
abbrev needed : Call → SharedBuffer → ℕ
needed (product_item x) s = s.empty_slots
needed consume_item s = s.filled_slots

-- An idle thread can start its call where its semaphore is not 0.
start-step :
    (call : Call) (i : ℕ) (s : SharedBuffer)
    → s.threads i ≡ idle
    → 0 < needed call s
    → (t : SharedBuffer) × (thread_step call i s ≡ some t)
unfolding thread_step call_step
start-step (product_item x) i s at some_ =
    let ready : ltb 0 s.empty_slots ≡ true = ground arith in
    (
      record s { empty_slots = s.empty_slots - 1; threads = update s.threads i (may_put x) },
      rw (at, phase_step, call_step, ready) refl,
    )
start-step consume_item i s at some_ =
    let ready : ltb 0 s.filled_slots ≡ true = ground arith in
    (
      record s { filled_slots = s.filled_slots - 1; threads = update s.threads i may_take },
      rw (at, phase_step, call_step, ready) refl,
    )

-- Each thread calls product_item or consume_item over and over, and at least one thread does the
-- one, at least one the other. Then in every state that a schedule leads to some thread can step: the
-- semaphores and the mutex never block all threads, also where threads wait inside the sem_wait that
-- opens either call.
pub Reach-progress :
    {n : ℕ} (items : ℕ → ℤ) {s : SharedBuffer} (roles : ℕ → Call) (x : ℤ) (producer consumer : ℕ)
    → Reach n (initialize_buffer items) s
    → producer < n
    → consumer < n
    → roles producer ≡ product_item x
    → roles consumer ≡ consume_item
    → (j : ℕ) × (j < n) × (t : SharedBuffer) × (thread_step (roles j) j s ≡ some t)
Reach-progress {n} items {s} roles x producer consumer r low_p low_c p c =
    let b = Reach-IsBalanced items r in
    elim (Option-cases (find_range n 0 (λ j. not (is_idle (s.threads j))))) [
      | inr (i, found) ↦
          let (_, below, busy) = find_range-some n 0 (λ j. not (is_idle (s.threads j))) i found in
          busy-step roles i b (omega (arith, below)) (ground (arith, busy))
      | inl nothing ↦
          let all = λ (j : ℕ) (low : j < n). idle-phase (s.threads j) (
            ground (
              arith,
              find_range-none n 0 (λ k. not (is_idle (s.threads k))) j nothing (omega arith)
                  (omega (arith, low)),
            )) in
          let full = idle-slots n s b all in
          elim (Bool-cases (ltb 0 s.empty_slots)) [
            | inl slot ↦
                let (t, e) =
                  start-step (roles producer) producer s (all producer low_p)
                    (rw p (ground (arith, slot))) in
                (producer, low_p, t, e)
            | inr no_slot ↦
                let (t, e) =
                  start-step (roles consumer) consumer s (all consumer low_c)
                    (rw c (ground (arith, no_slot, full))) in
                (consumer, low_c, t, e)
          ]
    ]
