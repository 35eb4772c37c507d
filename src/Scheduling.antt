-- ===== src/Scheduling.antt =====
-- d4_Process_Scheduling_Basics and d5_Advanced_Scheduling_Algorithms_in_OS: the schedulers.
pub mod Selection
pub mod Progress
pub mod Priority
pub mod ShortestJob
pub mod RoundRobin
pub mod Fcfs
