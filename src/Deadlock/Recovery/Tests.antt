-- ===== src/Deadlock/Recovery/Tests.antt =====
-- The state of `main`, with priorities in the place of random ones.
use os_exploring.Common.{ℕ, ◌<◌, ◌≡◌, refl, ◌⊎◌, some, pos, ◌≤ℤ◌, ◌-ℤ◌, for_range, update}
use os_exploring.Scheduling.Selection.{select_below}
use os_exploring.Deadlock.Recovery.{
  DeadlockRecovery, initialize_recovery, curr_priority, select_victim_process,
  recover_from_deadlock,
}
use os_exploring.Deadlock.Recovery.Victim.{IsVictim, IsRecovered, recover_from_deadlock_lem}

abbrev blank : DeadlockRecovery
blank = record {
  processes = λ i. record { pid = 0; priority = pos 0; age = 0; resources_held = λ j. pos 0 };
  num_processes = 0;
  num_resources = 0;
}

abbrev three : DeadlockRecovery
three = initialize_recovery (update (update (λ i. 17) 1 23) 2 14) blank 3 3

select_victim_process-three : select_victim_process three ≡ some 1
unfolding select_victim_process select_below initialize_recovery for_range ◌-ℤ◌
select_victim_process-three = refl

recover_from_deadlock_run :
    (((i : ℕ) → i < three.num_processes → pos 999 ≤ℤ curr_priority three i)
      × (recover_from_deadlock three ≡ three))
    ⊎ ((victim : ℕ) × IsVictim three victim
        × IsRecovered three victim (recover_from_deadlock three))
recover_from_deadlock_run = recover_from_deadlock_lem three
