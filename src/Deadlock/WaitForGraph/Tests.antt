-- ===== src/Deadlock/WaitForGraph/Tests.antt =====
-- The graph of `main`, in which three processes wait for one another, and one without its last edge.
use os_exploring.Common.{ℕ, ◌≡◌, refl, ◌⊎◌, true, false, some, update2, for_range}
use os_exploring.Deadlock.WaitForGraph.{WaitForGraph, initialize_wfg, detect_dead_lock}
use os_exploring.Deadlock.WaitForGraph.Cycle.{HasCycle}
use os_exploring.Deadlock.WaitForGraph.Search.{detect_dead_lock_lem}

abbrev add_edge : WaitForGraph → ℕ → ℕ → WaitForGraph
add_edge g v w = record g { matrix = update2 g.matrix v w 1 }

abbrev chain : WaitForGraph
chain = add_edge (add_edge (initialize_wfg (record { matrix = λ i j. 7; processes = 0 }) 4) 0 1) 1 2

abbrev ring : WaitForGraph
ring = add_edge chain 2 0

detect_dead_lock_of_ring : detect_dead_lock ring ≡ some true
unfolding detect_dead_lock initialize_wfg for_range
detect_dead_lock_of_ring = refl

detect_dead_lock_of_chain : detect_dead_lock chain ≡ some false
unfolding detect_dead_lock initialize_wfg for_range
detect_dead_lock_of_chain = refl

detect_dead_lock_example :
    ((detect_dead_lock ring ≡ some true) × HasCycle ring)
    ⊎ ((detect_dead_lock ring ≡ some false) × ¬ HasCycle ring)
detect_dead_lock_example = detect_dead_lock_lem ring
