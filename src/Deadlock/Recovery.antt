-- ===== src/Deadlock/Recovery.antt =====
-- recoverFromDeadlock.c: a victim is chosen by its priority and age, and loses its resources.
pub mod Victim
mod Tests
use os_exploring.Common.{
  ℕ, ◌+◌, ◌%◌, ◌/◌, Bool, true, false, not, Option, none, some, ℤ, pos, ◌-ℤ◌, ltb_ℤ, ◌==◌,
  if◌then◌else◌, update, for_range, write_range,
}
use os_exploring.Scheduling.Selection.{select_below}

pub record Process : Type 0 where
  pub pid : ℕ
  pub priority : ℤ
  pub age : ℕ
  pub resources_held : ℕ → ℤ

pub record DeadlockRecovery : Type 0 where
  pub processes : ℕ → Process
  pub num_processes : ℕ
  pub num_resources : ℕ

-- `rand` is what rand() returns in the round for each process.
abbrev pub reset_process : (ℕ → ℕ) → ℕ → ℕ → Process → Process
reset_process rand num_res i p = record {
  pid = i;
  priority = pos (rand i % 10);
  age = 0;
  resources_held = write_range (λ j held. pos 0) num_res 0 p.resources_held;
}

unfoldable pub initialize_recovery : (ℕ → ℕ) → DeadlockRecovery → ℕ → ℕ → DeadlockRecovery
unfolding for_range
initialize_recovery rand dr num_proc num_res = record {
  processes = write_range (reset_process rand num_res) num_proc 0 dr.processes;
  num_processes = num_proc;
  num_resources = num_res;
}

-- An age is never negative, so the division of C rounds it down.
abbrev pub curr_priority : DeadlockRecovery → ℕ → ℤ
curr_priority dr i = (dr.processes i).priority -ℤ pos ((dr.processes i).age / 10)

-- `none` is the -1 of the source.
unfoldable pub select_victim_process : DeadlockRecovery → Option ℕ
unfolding select_below
select_victim_process dr =
    (select_below (pos 999) dr.num_processes (λ _. true) (curr_priority dr)).1

-- What the loop leaves of the resources of a process.
abbrev pub released : ℕ → (ℕ → ℤ) → ℕ → ℤ
released n = write_range (λ i held. if ltb_ℤ (pos 0) held then pos 0 else held) n 0

unfoldable pub release_resources : DeadlockRecovery → ℕ → DeadlockRecovery
unfolding for_range
release_resources dr victim =
    let p = dr.processes victim in
    record dr {
      processes =
          update dr.processes victim
            (record p { resources_held = released dr.num_resources p.resources_held });
    }

-- The loop that ages the other processes.
abbrev pub older : ℕ → ℕ → Process → Process
older victim i p = if i == victim then p else record p { age = p.age + 1 }

unfoldable pub recover_from_deadlock : DeadlockRecovery → DeadlockRecovery
unfolding select_victim_process release_resources for_range
recover_from_deadlock dr = elim (select_victim_process dr) [
  | none ↦ dr
  | some victim ↦
      let now = release_resources dr victim in
      record now { processes = write_range (older victim) now.num_processes 0 now.processes }
]
