-- ===== src/Concurrency.antt =====
-- d10_Multithreading_Models to d13_Deadlock_Concepts_and_Prevention: what threads share.
pub mod BoundedBuffer
pub mod ThreadPool
pub mod Philosophers
pub mod Race
pub mod Workers
