-- ===== src/Deadlock/Recovery/Victim.antt =====
-- Who is chosen, and what recovery does to whom.
use os_exploring.Common.{
  ℕ, ◌+◌, ◌<◌, ◌≡◌, ◌≢◌, refl, ◌⊎◌, inl, inr, true, some, arith, ℤ, pos, ◌≤ℤ◌, ltb_ℤ, if◌then◌else◌,
  write_range, write_range_lem, lt→in_range, Option-cases,
}
use os_exploring.Scheduling.Selection.{select_below-some, select_below-none}
use os_exploring.Deadlock.Recovery.{
  DeadlockRecovery, curr_priority, select_victim_process, released, older, release_resources,
  recover_from_deadlock,
}

-- The process to be sacrificed: none has a lower priority, ages counted in.
pub record IsVictim (dr : DeadlockRecovery) (victim : ℕ) : Type 0 where
  pub below : victim < dr.num_processes
  pub lowest : (i : ℕ) → i < dr.num_processes → curr_priority dr victim ≤ℤ curr_priority dr i

-- What recovery leaves: the victim holds none of the resources that it held units of, and has its
-- age; every other process keeps its resources and is one older.
pub record IsRecovered (dr : DeadlockRecovery) (victim : ℕ) (now : DeadlockRecovery) : Type 0 where
  pub lost : (j : ℕ) → j < dr.num_resources → (now.processes victim).resources_held j ≤ℤ pos 0
  pub same_age : (now.processes victim).age ≡ (dr.processes victim).age
  pub kept :
      (i : ℕ)
      → i < dr.num_processes
      → i ≢ victim
      → ((now.processes i).resources_held ≡ (dr.processes i).resources_held)
        × ((now.processes i).age ≡ (dr.processes i).age + 1)
  pub counts : (now.num_processes ≡ dr.num_processes) × (now.num_resources ≡ dr.num_resources)

released-none : (n : ℕ) (held : ℕ → ℤ) (j : ℕ) → j < n → released n held j ≤ℤ pos 0
released-none n held j below =
    rw
      (
        write_range_lem (λ i h. if ltb_ℤ (pos 0) h then pos 0 else h) n 0 held j,
        lt→in_range n j below,
      )
      (ground arith)

recover_from_deadlock-some :
    (dr : DeadlockRecovery) (victim : ℕ)
    → select_victim_process dr ≡ some victim
    → recover_from_deadlock dr ≡ record (release_resources dr victim) {
      processes =
          write_range (older victim) dr.num_processes 0 (release_resources dr victim).processes;
    }
unfolding recover_from_deadlock release_resources
recover_from_deadlock-some dr victim chosen = rw (chosen, recover_from_deadlock) refl

-- The array after both loops.
after_loops :
    (dr : DeadlockRecovery) (victim i : ℕ)
    → select_victim_process dr ≡ some victim
    → i < dr.num_processes
    → (recover_from_deadlock dr).processes i
      ≡ older victim i ((release_resources dr victim).processes i)
after_loops dr victim i chosen below =
    rw
      (
        recover_from_deadlock-some dr victim chosen,
        write_range_lem (older victim) dr.num_processes 0 (release_resources dr victim).processes i,
        lt→in_range dr.num_processes i below,
      )
      refl

recover_from_deadlock-IsRecovered :
    (dr : DeadlockRecovery) (victim : ℕ)
    → select_victim_process dr ≡ some victim
    → victim < dr.num_processes
    → IsRecovered dr victim (recover_from_deadlock dr)
unfolding release_resources
recover_from_deadlock-IsRecovered dr victim chosen below =
    let here = after_loops dr victim victim chosen below in
    let self : (recover_from_deadlock dr).processes victim ≡ record (dr.processes victim) {
      resources_held = released dr.num_resources (dr.processes victim).resources_held;
    } =
      rw here (ground arith) in
    record {
      lost =
          λ j l. rw self (released-none dr.num_resources (dr.processes victim).resources_held j l);
      same_age = rw self refl;
      kept = λ i l other.
          let there = after_loops dr victim i chosen l in
          let same : (recover_from_deadlock dr).processes i
              ≡ record (dr.processes i) { age = (dr.processes i).age + 1 } =
            rw there (ground (arith, other)) in
          rw same (refl, refl);
      counts = rw (recover_from_deadlock-some dr victim chosen) (refl, refl);
    }

-- Either every process is far too important, and nothing changes; or one with the lowest priority is
-- chosen, loses what it holds, and all others keep what they hold and are one older.
pub recover_from_deadlock_lem :
    (dr : DeadlockRecovery)
    → (((i : ℕ) → i < dr.num_processes → pos 999 ≤ℤ curr_priority dr i)
        × (recover_from_deadlock dr ≡ dr))
      ⊎ ((victim : ℕ) × IsVictim dr victim × IsRecovered dr victim (recover_from_deadlock dr))
unfolding select_victim_process
recover_from_deadlock_lem dr = elim (Option-cases (select_victim_process dr)) [
  | inl nothing ↦ inl (
    λ i below.
        select_below-none (pos 999) dr.num_processes (λ _. true) (curr_priority dr) i nothing below
          refl,
    unfold recover_from_deadlock in (rw (nothing, recover_from_deadlock) refl),
  )
  | inr (victim, chosen) ↦
      let (below, _, least) =
        select_below-some (pos 999) dr.num_processes (λ _. true) (curr_priority dr) victim chosen in
      inr (
        victim,
        record { below = below; lowest = λ i l. least i l refl },
        recover_from_deadlock-IsRecovered dr victim chosen below,
      )
]
