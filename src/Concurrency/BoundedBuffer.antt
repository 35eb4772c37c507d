-- ===== src/Concurrency/BoundedBuffer.antt =====
-- consumer_producer.c: a buffer that threads share, with two semaphores and a mutex.
-- A thread is where it stands in product_item or consume_item. A step of a thread is one call of a
-- semaphore or of the mutex, or the access to the buffer between them; `none` is a call that blocks.
pub mod Books
pub mod Safety
pub mod Progress
mod Tests
use os_exploring.Common.{
  ◌≡◌, ℕ, ◌+◌, ◌-◌, Bool, true, false, Option, none, some, ℤ, pos, ltb, if◌then◌else◌, update, List,
  [], ◌∷◌,
}

-- An idle thread stands before its next call, or waits in the sem_wait that opens it: it steps once
-- that returns. `putting` and `taking` hold the mutex before the access, `wrote` and `took` after it; `filled` and
-- `emptied` have released it and are still to post.
pub data Phase : Type 0 where
  idle : Phase
  may_put putting : ℤ → Phase
  wrote filled : Phase
  may_take taking : Phase
  took emptied : ℤ → Phase

pub record SharedBuffer : Type 0 where
  pub items : ℕ → ℤ
  pub count : ℕ
  pub locked : Bool
  pub empty_slots : ℕ
  pub filled_slots : ℕ
  pub threads : ℕ → Phase

abbrev pub buffer_size : ℕ
buffer_size = 10

-- The threads stand before their first call.
unfoldable pub initialize_buffer : (ℕ → ℤ) → SharedBuffer
initialize_buffer items = record {
  items = items;
  count = 0;
  locked = false;
  empty_slots = buffer_size;
  filled_slots = 0;
  threads = λ _. idle;
}

-- The call that an idle thread makes.
pub data Call : Type 0 where
  product_item : ℤ → Call
  consume_item : Call

-- sem_wait: it blocks at 0.
unfoldable pub call_step : Call → ℕ → SharedBuffer → Option SharedBuffer
call_step (product_item item) i s =
    if ltb 0 s.empty_slots
    then some
        (record s { empty_slots = s.empty_slots - 1; threads = update s.threads i (may_put item) })
    else none
call_step consume_item i s =
    if ltb 0 s.filled_slots
    then some
        (record s { filled_slots = s.filled_slots - 1; threads = update s.threads i may_take })
    else none

-- pthread_mutex_lock: it blocks while another thread holds the mutex.
unfoldable pub lock_step : Phase → ℕ → SharedBuffer → Option SharedBuffer
lock_step next i s =
    if s.locked then none else some (record s { locked = true; threads = update s.threads i next })

unfoldable pub unlock_step : Phase → ℕ → SharedBuffer → Option SharedBuffer
unlock_step next i s = some (record s { locked = false; threads = update s.threads i next })

-- buf->data[buf->count++] = item
unfoldable pub write_step : ℤ → ℕ → SharedBuffer → Option SharedBuffer
write_step item i s = some (record s {
  items = update s.items s.count item;
  count = s.count + 1;
  threads = update s.threads i wrote;
})

-- int item = buf->data[--buf->count]
unfoldable pub read_step : ℕ → SharedBuffer → Option SharedBuffer
read_step i s =
    some (record s {
      count = s.count - 1;
      threads = update s.threads i (took (s.items (s.count - 1)));
    })

-- sem_post
unfoldable pub post_filled : ℕ → SharedBuffer → Option SharedBuffer
post_filled i s =
    some (record s { filled_slots = s.filled_slots + 1; threads = update s.threads i idle })

unfoldable pub post_empty : ℕ → SharedBuffer → Option SharedBuffer
post_empty i s =
    some (record s { empty_slots = s.empty_slots + 1; threads = update s.threads i idle })

-- What a thread does next, by where it stands.
unfoldable pub phase_step : Phase → Call → ℕ → SharedBuffer → Option SharedBuffer
phase_step idle call i s = call_step call i s
phase_step (may_put item) call i s = lock_step (putting item) i s
phase_step (putting item) call i s = write_step item i s
phase_step wrote call i s = unlock_step filled i s
phase_step filled call i s = post_filled i s
phase_step may_take call i s = lock_step taking i s
phase_step taking call i s = read_step i s
phase_step (took item) call i s = unlock_step (emptied item) i s
phase_step (emptied item) call i s = post_empty i s

unfoldable pub thread_step : Call → ℕ → SharedBuffer → Option SharedBuffer
unfolding phase_step
thread_step call i s = phase_step (s.threads i) call i s

-- One step of some thread below `n`.
pub data Step (n : ℕ) (s t : SharedBuffer) : Type 0 where
  step : (i : ℕ) (call : Call) → ltb i n ≡ true → thread_step call i s ≡ some t → Step n s t

-- The states that a schedule of `n` threads leads to.
pub data Reach (n : ℕ) (s : SharedBuffer) : SharedBuffer → Type 0 where
  here : Reach n s s
  next : {t u : SharedBuffer} → Reach n s t → Step n t u → Reach n s u
