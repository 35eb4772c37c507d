-- ===== src/Deadlock/ResourceGraph.antt =====
-- Resource_Allocation_Graph.c: deadlock detection over requests and allocations.
mod Detection
mod Tests
use os_exploring.Common.{
  ℕ, zero, suc, ◌+◌, Bool, true, false, not, Option, none, some, ◌-◌, ◌^◌, ◌&&◌, int_max, leb_ℤ, ℤ,
  pos, negsuc, ◌+ℤ◌, if◌then◌else◌, update, update2, write_range, for_range, all_range,
}

pub record ResourceGraph : Type 0 where
  pub allocation : ℕ → ℕ → ℤ
  pub request : ℕ → ℕ → ℤ
  pub available : ℕ → ℤ
  pub processes : ℕ
  pub resources : ℕ

clear_cell : ℕ → ℕ → ResourceGraph → ResourceGraph
clear_cell i j g = record g {
  allocation = update2 g.allocation i j (pos 0);
  request = update2 g.request i j (pos 0);
}

unfoldable pub initialize_rag : ResourceGraph → ℕ → ℕ → ResourceGraph
unfolding clear_cell for_range
initialize_rag g p r =
    let rows =
      for_range p 0 (λ i. for_range r 0 (clear_cell i))
        (record g { processes = p; resources = r }) in
    record rows { available = write_range (λ _ _. pos 0) r 0 rows.available }

-- The locals of `detectDeadLock`; `overflow` says that a sum has left the range of an int, from where
-- on nothing is defined.
pub record Search : Type 0 where
  pub work : ℕ → ℤ
  pub finish : ℕ → Bool
  pub found : Bool
  pub overflow : Bool

-- The loop over `j` that sets `canComplete`.
unfoldable pub can_complete : ResourceGraph → ℕ → (ℕ → ℤ) → Bool
can_complete g i work = all_range g.resources 0 (λ j. leb_ℤ (g.request i j) (work j))

-- The sum is an int.
abbrev fits_int : ℤ → Bool
fits_int x = leb_ℤ (negsuc (2 ^ 31 - 1)) x && leb_ℤ x int_max

unfoldable pub overflows : ResourceGraph → ℕ → (ℕ → ℤ) → Bool
overflows g i work = not (all_range g.resources 0 (λ j. fits_int (work j +ℤ g.allocation i j)))

-- The body of the `for` loop: `finish[i]` is written and not read.
unfoldable pub visit : ResourceGraph → ℕ → Search → Search
visit g i s =
    if can_complete g i s.work
    then record {
      work = write_range (λ j w. w +ℤ g.allocation i j) g.resources 0 s.work;
      finish = update s.finish i true;
      found = true;
      overflow = if s.overflow then true else overflows g i s.work;
    }
    else s

unfoldable pub round : ResourceGraph → Search → Search
round g s = for_range g.processes 0 (visit g) (record s { found = false })

-- The `do` … `while (found)` loop with fuel; `none` means that the fuel ran out. It
-- stops after a round with an overflow.
unfoldable pub search_processes : ResourceGraph → ℕ → Search → Option Search
search_processes g zero s = none
search_processes g (suc fuel) s =
    let s' = round g s in
    let rest = search_processes g fuel s' in
    if s'.overflow then some s' else if s'.found then rest else some s'

unfoldable pub start : ResourceGraph → Search
start g = record {
  work = write_range (λ i _. g.available i) g.resources 0 (λ _. pos 0);
  finish = λ _. false;
  found = false;
  overflow = false;
}

-- `running` is a loop that has not ended, `overflowed` is undefined; the answer `true` is a deadlock.
pub data Verdict : Type 0 where
  running overflowed : Verdict
  answer : Bool → Verdict

-- There is a deadlock if some process is not marked.
unfoldable pub detect_deadlock : ResourceGraph → ℕ → Verdict
unfolding search_processes round overflows visit can_complete start for_range all_range ◌+ℤ◌
detect_deadlock g fuel = elim (search_processes g fuel (start g)) [
  | none ↦ running
  | some s ↦ if s.overflow then overflowed else answer (not (all_range g.processes 0 s.finish))
]
