-- ===== src/Concurrency/BoundedBuffer/Tests.antt =====
-- Two threads: the first stores a 7, then the second takes it.
use os_exploring.Common.{
  ℕ, ◌==◌, if◌then◌else◌, ◌<◌, ◌≡◌, refl, true, none, some, arith, pos, update,
}
use os_exploring.Concurrency.BoundedBuffer.{
  idle, may_put, putting, wrote, SharedBuffer, thread_step, call_step, lock_step, write_step, Call,
  product_item, consume_item, initialize_buffer, step, Reach, here, next,
}
use os_exploring.Concurrency.BoundedBuffer.Safety.{IsSafe, Reach-IsSafe}
use os_exploring.Concurrency.BoundedBuffer.Progress.{Reach-progress}

abbrev start : SharedBuffer
unfolding initialize_buffer
start = initialize_buffer (λ _. pos 0)

-- After sem_wait, lock and the write of the first thread.
abbrev stored : SharedBuffer
stored = record {
  items = update (λ _. pos 0) 0 (pos 7);
  count = 1;
  locked = true;
  empty_slots = 9;
  filled_slots = 0;
  threads = update (update (update (λ _. idle) 0 (may_put (pos 7))) 0 (putting (pos 7))) 0 wrote;
}

stores : Reach 2 start stored
unfolding start initialize_buffer thread_step call_step lock_step write_step
stores =
    next
      (next (next here (step 0 (product_item (pos 7)) refl refl)) (step 0 consume_item refl refl))
      (step 0 consume_item refl refl)

-- The second thread blocks: nothing is posted yet.
blocks : thread_step consume_item 1 stored ≡ none
unfolding thread_step call_step
blocks = refl

Reach-IsSafe_example : IsSafe 2 stored
unfolding start
Reach-IsSafe_example = Reach-IsSafe (λ _. pos 0) stores

-- The first thread stores, the second takes.
abbrev roles : ℕ → Call
roles i = if i == 0 then product_item (pos 7) else consume_item

Reach-progress_example :
    (j : ℕ) × (j < 2) × (t : SharedBuffer) × (thread_step (roles j) j stored ≡ some t)
unfolding start
Reach-progress_example =
    Reach-progress (λ _. pos 0) roles (pos 7) 0 1 stores (omega arith) (omega arith) refl refl
