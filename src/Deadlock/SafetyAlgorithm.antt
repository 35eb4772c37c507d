-- ===== src/Deadlock/SafetyAlgorithm.antt =====
-- Safety_algorithm.c: the safety test alone, on a state of its own.
-- Its locals are those of `isSafe` in Banker_algorithm.c, hence the same record `Scan`.
mod Agreement
mod Tests
use os_exploring.Common.{
  ℕ, zero, suc, ◌+◌, Bool, true, false, not, ◌&&◌, Option, none, some, ltb, leb_ℤ, ℤ, pos, ◌+ℤ◌,
  ◌-ℤ◌, if◌then◌else◌, update, update2, write_range, fill_table, for_range, all_range,
}
use os_exploring.Deadlock.Banker.{Scan}

pub record BankerState : Type 0 where
  pub allocation : ℕ → ℕ → ℤ
  pub max : ℕ → ℕ → ℤ
  pub need : ℕ → ℕ → ℤ
  pub available : ℕ → ℤ
  pub processes : ℕ
  pub resources : ℕ

clear_cell : ℕ → ℕ → BankerState → BankerState
clear_cell i j st = record st {
  allocation = update2 st.allocation i j (pos 0);
  max = update2 st.max i j (pos 0);
  need = update2 st.need i j (pos 0);
}

unfoldable pub initialize_bankers : BankerState → ℕ → ℕ → BankerState
unfolding clear_cell for_range
initialize_bankers st p r =
    let rows =
      for_range p 0 (λ i. for_range r 0 (clear_cell i))
        (record st { processes = p; resources = r }) in
    record rows { available = write_range (λ _ _. pos 0) r 0 rows.available }

unfoldable pub calculate_need : BankerState → BankerState
unfolding for_range ◌-ℤ◌
calculate_need st = record st {
  need = fill_table (λ i j. st.max i j -ℤ st.allocation i j) st.processes 0 st.resources st.need;
}

-- The loop over `j` that sets `canAllocate`.
unfoldable pub can_allocate : BankerState → ℕ → (ℕ → ℤ) → Bool
can_allocate st i work = all_range st.resources 0 (λ j. leb_ℤ (st.need i j) (work j))

unfoldable pub visit : BankerState → ℕ → Scan → Scan
unfolding can_allocate
visit st i s =
    if not (s.finished i) && can_allocate st i s.work
    then record {
      work = write_range (λ j w. w +ℤ st.allocation i j) st.resources 0 s.work;
      completed = s.completed + 1;
      found = true;
      safe_sequence = update s.safe_sequence s.completed i;
      finished = update s.finished i true;
    }
    else s

unfoldable pub search_safe : BankerState → ℕ → Scan → Option Bool
unfolding visit for_range
search_safe st zero s = none
search_safe st (suc fuel) s =
    let s' = for_range st.processes 0 (visit st) (record s { found = false }) in
    let rest = search_safe st fuel s' in
    if ltb s.completed st.processes then (if s'.found then rest else some false) else some true

-- `safeSequence` is not initialised: what it holds is the argument.
unfoldable pub is_safe : BankerState → (ℕ → ℕ) → Option Bool
unfolding search_safe for_range all_range ◌+ℤ◌
is_safe st garbage = search_safe st (st.processes + 1) (record {
  work = write_range (λ i _. st.available i) st.resources 0 (λ _. pos 0);
  completed = 0;
  found = false;
  safe_sequence = garbage;
  finished = λ _. false;
})
