-- ===== src/Deadlock.antt =====
-- d14_Deadlock_Detection_Algorithms_and_Banker’s_Algorithm, one module for each source file.
pub mod Banker
pub mod SafetyAlgorithm
pub mod ResourceGraph
pub mod WaitForGraph
pub mod Recovery
pub mod ResourceOrdering
