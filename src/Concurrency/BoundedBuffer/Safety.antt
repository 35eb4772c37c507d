-- ===== src/Concurrency/BoundedBuffer/Safety.antt =====
-- What holds in every state that a schedule leads to.
use os_exploring.Common.{
  ℕ, ◌+◌, ◌-◌, ◌≤◌, ◌<◌, ◌≡◌, refl, Bool, true, false, some, arith, ℤ, update, count_range-none,
  count_range-some, count_range-pair, ℕ_discrete, one_if,
}
use os_exploring.Concurrency.BoundedBuffer.{
  Phase, idle, may_put, putting, wrote, filled, may_take, taking, took, emptied, SharedBuffer, Call,
  buffer_size, thread_step, phase_step, call_step, lock_step, unlock_step, write_step, read_step,
  post_filled, post_empty, product_item, consume_item, initialize_buffer, Step, step, Reach, here,
  next,
}
use os_exploring.Concurrency.BoundedBuffer.Books.{
  will_put, has_put, will_take, has_taken, holds, count_threads, count_threads-update, IsBalanced,
}

-- A thread below `n` moves to another phase: what that does to the five numbers.
module _ (n : ℕ) (threads : ℕ → Phase) (i : ℕ) (below : i < n) (old new : Phase)
    (at : threads i ≡ old) where
  moves :
      (test : Phase → Bool)
      → count_threads n test (update threads i new) + one_if (test old)
        ≡ count_threads n test threads + one_if (test new)
  moves test = rw (← at) (count_threads-update n test threads i new below)

phase_step-IsBalanced :
    (p : Phase) (call : Call) (n i : ℕ) (s t : SharedBuffer)
    → i < n
    → s.threads i ≡ p
    → phase_step p call i s ≡ some t
    → IsBalanced n s
    → IsBalanced n t
unfolding phase_step call_step lock_step unlock_step write_step read_step post_filled post_empty
phase_step-IsBalanced idle (product_item x) n i s t below at e b =
    let m = moves n s.threads i below idle (may_put x) at in
    ground (arith, b, m will_put, m has_put, m will_take, m has_taken, m holds)
phase_step-IsBalanced idle consume_item n i s t below at e b =
    let m = moves n s.threads i below idle may_take at in
    ground (arith, b, m will_put, m has_put, m will_take, m has_taken, m holds)
phase_step-IsBalanced (may_put x) call n i s t below at e b =
    let m = moves n s.threads i below (may_put x) (putting x) at in
    ground (arith, b, m will_put, m has_put, m will_take, m has_taken, m holds)
phase_step-IsBalanced (putting x) call n i s t below at e b =
    let m = moves n s.threads i below (putting x) wrote at in
    ground (arith, b, m will_put, m has_put, m will_take, m has_taken, m holds)
phase_step-IsBalanced wrote call n i s t below at e b =
    let m = moves n s.threads i below wrote filled at in
    ground (arith, b, m will_put, m has_put, m will_take, m has_taken, m holds)
phase_step-IsBalanced filled call n i s t below at e b =
    let m = moves n s.threads i below filled idle at in
    ground (arith, b, m will_put, m has_put, m will_take, m has_taken, m holds)
phase_step-IsBalanced may_take call n i s t below at e b =
    let m = moves n s.threads i below may_take taking at in
    ground (arith, b, m will_put, m has_put, m will_take, m has_taken, m holds)
phase_step-IsBalanced taking call n i s t below at e b =
    let m = moves n s.threads i below taking (took (s.items (s.count - 1))) at in
    ground (arith, b, m will_put, m has_put, m will_take, m has_taken, m holds)
phase_step-IsBalanced (took x) call n i s t below at e b =
    let m = moves n s.threads i below (took x) (emptied x) at in
    ground (arith, b, m will_put, m has_put, m will_take, m has_taken, m holds)
phase_step-IsBalanced (emptied x) call n i s t below at e b =
    let m = moves n s.threads i below (emptied x) idle at in
    ground (arith, b, m will_put, m has_put, m will_take, m has_taken, m holds)

Step-IsBalanced : {n : ℕ} {s t : SharedBuffer} → Step n s t → IsBalanced n s → IsBalanced n t
unfolding thread_step
Step-IsBalanced {n} {s} {t} (step i call below e) b =
    phase_step-IsBalanced (s.threads i) call n i s t (ground (arith, below)) refl e b

initialize_buffer-IsBalanced : (n : ℕ) (items : ℕ → ℤ) → IsBalanced n (initialize_buffer items)
unfolding initialize_buffer
initialize_buffer-IsBalanced n items =
    let none_of = λ (test : Phase → Bool) (e : test idle ≡ false).
      count_range-none n (λ _. test idle) (λ _ _. e) in
    let a = none_of will_put refl in
    let b = none_of has_put refl in
    let c = none_of will_take refl in
    let d = none_of has_taken refl in let e = none_of holds refl in ground (arith, a, b, c, d, e)

-- However the threads are interleaved, the slots, the items and the mutex stay in balance.
pub Reach-IsBalanced :
    {n : ℕ} (items : ℕ → ℤ) {s : SharedBuffer}
    → Reach n (initialize_buffer items) s
    → IsBalanced n s
Reach-IsBalanced {n} items here = initialize_buffer-IsBalanced n items
Reach-IsBalanced items (next r st) = Step-IsBalanced st (Reach-IsBalanced items r)

-- No access is out of bounds, and the accesses exclude one another.
pub record IsSafe (n : ℕ) (s : SharedBuffer) : Type 0 where
  pub bounded : s.count ≤ buffer_size
  pub room : (i : ℕ) (x : ℤ) → i < n → s.threads i ≡ putting x → s.count < buffer_size
  pub item : (i : ℕ) → i < n → s.threads i ≡ taking → 0 < s.count
  pub exclusive :
      (i j : ℕ) → i < n → j < n → holds (s.threads i) ≡ true → holds (s.threads j) ≡ true → i ≡ j

-- However many threads call product_item and consume_item, and in whatever order they step, the
-- buffer never holds more than its ten items, an item is written only where there is room and read
-- only if there is one, and at most one thread holds the mutex.
pub Reach-IsSafe :
    {n : ℕ} (items : ℕ → ℤ) {s : SharedBuffer} → Reach n (initialize_buffer items) s → IsSafe n s
Reach-IsSafe {n} items {s} r =
    let b = Reach-IsBalanced items r in
    record {
      bounded = omega (arith, b.slots);
      room = λ i x l e.
          let some_ = count_range-some n (λ k. will_put (s.threads k)) i l (rw e refl) in
          omega (arith, b.slots, some_);
      item = λ i l e.
          let some_ = count_range-some n (λ k. will_take (s.threads k)) i l (rw e refl) in
          omega (arith, b.stored, some_);
      exclusive = λ i j low_i low_j e_i e_j. elim (ℕ_discrete i j) [
        | yes same ↦ same
        | no differ ↦
            let two =
              count_range-pair n (λ k. holds (s.threads k)) i j low_i low_j differ e_i e_j in
            absurd (ground (arith, b.mutex, two))
      ];
    }
