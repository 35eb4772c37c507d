-- ===== src/Concurrency/ThreadPool/Tests.antt =====
-- Two tasks arrive, one is taken, and one more arrives; then the pool shuts down.
use os_exploring.Common.{ℕ, ◌≡◌, refl, List, [], ◌∷◌, ◌++◌}
use os_exploring.Concurrency.ThreadPool.{
  Task, ThreadPool, create_thread_pool, add_task, exits, max_queue_size, worker_round, shut_down,
}
use os_exploring.Concurrency.ThreadPool.Fifo.{
  contents, IsRing, create_thread_pool-IsRing, Event, arrives, works, serve, serve_fifo,
}

abbrev task : ℕ → Task
task n = record { function = n; arg = 0 }

abbrev new_pool : ThreadPool
unfolding create_thread_pool
new_pool = create_thread_pool (λ _. task 0)

abbrev events : List Event
events = arrives (task 1) ∷ arrives (task 2) ∷ works ∷ arrives (task 3) ∷ []

first_taken : (serve max_queue_size events new_pool).2 ≡ task 1 ∷ []
unfolding serve new_pool create_thread_pool add_task worker_round
first_taken = refl

-- The tasks that wait are dropped.
dropped : worker_round (shut_down (serve max_queue_size events new_pool).0) ≡ exits
unfolding serve new_pool create_thread_pool add_task worker_round shut_down
dropped = refl

serve_fifo_example :
    IsRing (serve max_queue_size events new_pool).0
    × (contents new_pool ++ (serve max_queue_size events new_pool).1
        ≡ (serve max_queue_size events new_pool).2
          ++ contents (serve max_queue_size events new_pool).0)
unfolding new_pool
serve_fifo_example =
    serve_fifo max_queue_size events new_pool refl (create_thread_pool-IsRing (λ _. task 0))
