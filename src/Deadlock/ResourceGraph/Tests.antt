-- ===== src/Deadlock/ResourceGraph/Tests.antt =====
-- Runs of Resource_Allocation_Graph.c, and its theorems at graphs of two processes.
use os_exploring.Common.{ℕ, ◌≡◌, refl, true, ◌⊎◌, arith, pos}
use os_exploring.Deadlock.ResourceGraph.{
  ResourceGraph, running, overflowed, answer, detect_deadlock,
}
use os_exploring.Deadlock.ResourceGraph.Detection.{
  detect_deadlock-never_ends, detect_deadlock-blocked,
}

abbrev graph : ℕ → ResourceGraph
graph supply = record {
  allocation = λ _ _. pos 1;
  request = λ _ _. pos 2;
  available = λ _. pos supply;
  processes = 2;
  resources = 1;
}

detect_deadlock-never_ends_example :
    (detect_deadlock (graph 3) 1000 ≡ running) ⊎ (detect_deadlock (graph 3) 1000 ≡ overflowed)
detect_deadlock-never_ends_example =
    detect_deadlock-never_ends (graph 3) 1 1000 (λ _ _. omega arith) (omega arith)
      (λ _ _. omega arith)

detect_deadlock-blocked_run : detect_deadlock (graph 1) 1 ≡ answer true
detect_deadlock-blocked_run =
    detect_deadlock-blocked (graph 1) 0 (λ _ _. (0, omega arith, omega arith))

five_rounds : detect_deadlock (graph 3) 5 ≡ running
unfolding detect_deadlock
five_rounds = refl

-- A sum that is no int.
too_large : detect_deadlock (graph 2147483646) 5 ≡ overflowed
unfolding detect_deadlock
too_large = refl
