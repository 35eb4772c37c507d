-- ===== src/Concurrency/ThreadPool/Fifo.antt =====
-- The ring of tasks is a queue, first in, first out.
use os_exploring.Common.{
  ℕ, zero, suc, ◌+◌, ◌-◌, ◌%◌, ◌≤◌, ◌<◌, ◌≡◌, refl, ap, inl, inr, false, not, none, some, List, [],
  ◌∷◌, ◌++◌, arith, ◌==◌, ◌&&◌, Bool-cases, update, update_self, Option-cases, ◌⊎◌,
}
use mathlib.Core.List.{append-nil, append_assoc}
use os_exploring.Concurrency.ThreadPool.{
  max_queue_size, Task, ThreadPool, create_thread_pool, add_task, Round, waits, exits, runs,
  worker_round,
}

-- The `n` tasks from `front` on, round the ring.
unfoldable pub ring_tasks : ℕ → ℕ → (ℕ → Task) → List Task
ring_tasks zero front queue = []
ring_tasks (suc n) front queue = queue front ∷ ring_tasks n ((front + 1) % 100) queue

ring_tasks-update :
    (n front d : ℕ) (queue : ℕ → Task) (task : Task)
    → front < 100
    → n ≤ d
    → d < 100
    → ring_tasks n front (update queue ((front + d) % 100) task) ≡ ring_tasks n front queue
unfolding ring_tasks
ring_tasks-update zero front d queue task in_ring short small = refl
ring_tasks-update (suc n) front d queue task in_ring short small =
    let slot : ((front + 1) % 100 + (d - 1)) % 100 ≡ (front + d) % 100 = omega arith in
    let rest =
      ring_tasks-update n ((front + 1) % 100) (d - 1) queue task (omega arith) (omega arith)
        (omega arith) in
    let rest' = rw slot at rest in
    let other : ((front + d) % 100 == front) ≡ false = ground arith in rw (other, rest') refl

ring_tasks-snoc :
    (n front : ℕ) (queue : ℕ → Task)
    → front < 100
    → ring_tasks (suc n) front queue ≡ ring_tasks n front queue ++ queue ((front + n) % 100) ∷ []
unfolding ring_tasks
ring_tasks-snoc zero front queue in_ring =
    let at : (front + 0) % 100 ≡ front = omega arith in rw at refl
ring_tasks-snoc (suc n) front queue in_ring =
    let slot : ((front + 1) % 100 + n) % 100 ≡ (front + suc n) % 100 = omega arith in
    let rest = ring_tasks-snoc n ((front + 1) % 100) queue (omega arith) in
    ap (λ l. queue front ∷ l) (rw slot at rest)

-- The tasks that wait, the next one first.
abbrev pub contents : ThreadPool → List Task
unfolding ring_tasks
contents pool = ring_tasks pool.queue_size pool.front pool.task_queue

pub record IsRing (pool : ThreadPool) : Type 0 where
  pub within : pool.queue_size ≤ 100
  pub starts : pool.front < 100
  pub ends : pool.rear ≡ (pool.front + pool.queue_size) % 100

-- A new pool has no tasks.
pub create_thread_pool-IsRing : (raw : ℕ → Task) → IsRing (create_thread_pool raw)
unfolding create_thread_pool
create_thread_pool-IsRing raw = omega arith

pub add_task-contents :
    (pool : ThreadPool) (task : Task) (pool' : ThreadPool)
    → IsRing pool
    → add_task max_queue_size pool task ≡ some pool'
    → IsRing pool' × (contents pool' ≡ contents pool ++ task ∷ [])
unfolding add_task contents
add_task-contents pool task pool' r e = elim (Bool-cases (pool.queue_size == max_queue_size)) [
  | inl full ↦ absurd (cc (rw (full, add_task) at e))
  | inr room ↦
      let rear' : ℕ = (pool.front + pool.queue_size) % 100 in
      let b : ThreadPool = record pool {
        task_queue = update pool.task_queue pool.rear task;
        rear = (pool.rear + 1) % max_queue_size;
        queue_size = pool.queue_size + 1;
      } in
      let at : b ≡ pool' = cc (rw (room, add_task) at e) in
      let queue = update pool.task_queue rear' task in
      let one : pool.queue_size + 1 ≡ suc pool.queue_size = omega arith in
      let last = ring_tasks-snoc pool.queue_size pool.front queue r.starts in
      let old =
        ring_tasks-update pool.queue_size pool.front pool.queue_size pool.task_queue task r.starts
          (omega arith) (ground (arith, room, r.within)) in
      let new = update_self pool.task_queue rear' task in
      rw (← at) (
        record {
          within = ground (arith, room, r.within);
          starts = r.starts;
          ends = omega (arith, r.ends);
        },
        rw (r.ends, one, last, old, new) refl,
      )
]

pub worker_round-contents :
    (pool : ThreadPool) (task : Task) (pool' : ThreadPool)
    → IsRing pool
    → worker_round pool ≡ runs task pool'
    → IsRing pool' × (contents pool ≡ task ∷ contents pool')
unfolding worker_round contents ring_tasks
worker_round-contents pool task pool' r e =
    elim (Bool-cases (pool.queue_size == 0 && not pool.shutdown)) [
      | inl idle ↦ absurd (cc (rw (idle, worker_round) at e))
      | inr ready ↦ elim (Bool-cases pool.shutdown) [
        | inl down ↦ absurd (cc (rw (ready, down, worker_round) at e))
        | inr up ↦
            let b : ThreadPool = record pool {
              front = (pool.front + 1) % max_queue_size;
              queue_size = pool.queue_size - 1;
              shutdown = false;
            } in
            let both : runs (pool.task_queue pool.front) b ≡ runs task pool' =
              rw (ready, up, worker_round) at e in
            let first : pool.task_queue pool.front ≡ task = cc both in
            let at : b ≡ pool' = cc both in
            let one : pool.queue_size ≡ suc (pool.queue_size - 1) = ground (arith, ready, up) in
            rw (← at, ← first)
              (
                record {
                  within = omega (arith, r.within);
                  starts = omega arith;
                  ends = omega (arith, r.ends, one);
                },
                ap (λ n. ring_tasks n pool.front pool.task_queue) one,
              )
      ]
    ]

-- What happens at the queue: a task arrives, or a worker comes round.
pub data Event : Type 0 where
  arrives : Task → Event
  works : Event

-- The pool after the events, the tasks that were added, and those that workers took.
unfoldable pub serve : ℕ → List Event → ThreadPool → ThreadPool × List Task × List Task
serve mask [] pool = (pool, [], [])
serve mask (arrives task ∷ es) pool = elim (add_task mask pool task) [
  | none ↦ serve mask es pool
  | some pool' ↦ let (end, added, taken) = serve mask es pool' in (end, task ∷ added, taken)
]
serve mask (works ∷ es) pool = elim (worker_round pool) [
  | waits ↦ serve mask es pool
  | exits ↦ serve mask es pool
  | runs task pool' ↦ let (end, added, taken) = serve mask es pool' in (end, added, task ∷ taken)
]

Round-cases :
    (r : Round) → (r ≡ waits) ⊎ ((r ≡ exits) ⊎ ((t : Task) × (p : ThreadPool) × (r ≡ runs t p)))
Round-cases waits = inl refl
Round-cases exits = inr (inl refl)
Round-cases (runs t p) = inr (inr (t, p, refl))

serve-contents :
    (es : List Event) (pool : ThreadPool)
    → IsRing pool
    → IsRing (serve max_queue_size es pool).0
      × (contents pool ++ (serve max_queue_size es pool).1
          ≡ (serve max_queue_size es pool).2 ++ contents (serve max_queue_size es pool).0)
unfolding serve contents
serve-contents [] pool r = (r, append-nil (contents pool))
serve-contents (arrives task ∷ es) pool r =
    elim (Option-cases (add_task max_queue_size pool task)) [
      | inl full ↦ rw (full, serve) (serve-contents es pool r)
      | inr (pool', added) ↦
          let (r', more) = add_task-contents pool task pool' r added in
          let (ring, order) = serve-contents es pool' r' in
          let order' = rw (more, append_assoc) at order in rw (added, serve) (ring, order')
    ]
serve-contents (works ∷ es) pool r = elim (Round-cases (worker_round pool)) [
  | inl idle ↦ rw (idle, serve) (serve-contents es pool r)
  | inr (inl down) ↦ rw (down, serve) (serve-contents es pool r)
  | inr (inr (task, pool', ran)) ↦
      let (r', less) = worker_round-contents pool task pool' r ran in
      let (ring, order) = serve-contents es pool' r' in
      rw (ran, less, serve) (ring, ap (λ l. task ∷ l) order)
]

-- From any state of the ring, whatever arrives and whichever worker comes round: the tasks that waited,
-- followed by those added, are those taken, in the same order, followed by those that wait at the end,
-- and the ring stays sound; provided that MASK_QUEUE_SIZE, which the source does not define, is
-- MAX_QUEUE_SIZE.
pub serve_fifo :
    (mask : ℕ) (es : List Event) (pool : ThreadPool)
    → mask ≡ max_queue_size
    → IsRing pool
    → IsRing (serve mask es pool).0
      × (contents pool ++ (serve mask es pool).1
          ≡ (serve mask es pool).2 ++ contents (serve mask es pool).0)
serve_fifo mask es pool same r = rw same (serve-contents es pool r)
