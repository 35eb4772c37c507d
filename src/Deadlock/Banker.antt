-- ===== src/Deadlock/Banker.antt =====
-- Banker_algorithm.c: the state of the banker, the safety test and the request algorithm.
-- An array is a function from indices; the loops stay below `processes` and `resources`.
-- `int` is ℤ without bound, since overflow is undefined in C; counters and indices are ℕ.
pub mod Spec
pub mod Scans
pub mod Safety
pub mod Moves
pub mod Request
pub mod Setup
pub mod Books
pub mod Demo
mod Tests
use os_exploring.Common.{
  ℕ, zero, suc, ◌+◌, Bool, true, false, not, ◌&&◌, Option, none, some, ltb, leb_ℤ, ℤ, pos, ◌+ℤ◌,
  ◌-ℤ◌, if◌then◌else◌, update, update2, write_range, for_range, all_range,
}

-- `MAX_PROCESSES` and `MAX_RESOURCES` bound the arrays of the source and are not read by it.
pub record BankerSystem : Type 0 where
  pub processes : ℕ
  pub resources : ℕ
  pub allocation : ℕ → ℕ → ℤ
  pub max : ℕ → ℕ → ℤ
  pub need : ℕ → ℕ → ℤ
  pub available : ℕ → ℤ
  pub safe_sequence : ℕ → ℕ
  pub finished : ℕ → Bool

-- The body of the inner loop of `initializeBankers`, which names `allocation` twice.
clear_cell : ℕ → ℕ → BankerSystem → BankerSystem
clear_cell i j bs = record bs {
  allocation = update2 (update2 bs.allocation i j (pos 0)) i j (pos 0);
  need = update2 bs.need i j (pos 0);
}

clear_row : ℕ → ℕ → BankerSystem → BankerSystem
unfolding clear_cell
clear_row r i bs =
    let row = for_range r 0 (clear_cell i) bs in
    record row { finished = update row.finished i false }

unfoldable pub initialize_bankers : BankerSystem → ℕ → ℕ → BankerSystem
unfolding clear_row for_range
initialize_bankers bs p r =
    let rows = for_range p 0 (clear_row r) (record bs { processes = p; resources = r }) in
    record rows { available = write_range (λ _ _. pos 0) r 0 rows.available }

-- need[i][j] = max[i][j] - allocation[i][j]
unfoldable pub cal_need : BankerSystem → BankerSystem
unfolding for_range ◌-ℤ◌
cal_need bs = record bs {
  need =
      for_range bs.processes 0
        (λ i need.
          for_range bs.resources 0 (λ j need. update2 need i j (bs.max i j -ℤ bs.allocation i j))
            need)
        bs.need;
}

unfoldable pub can_allocate_resources : BankerSystem → ℕ → (ℕ → ℤ) → Bool
can_allocate_resources bs process_id work =
    all_range bs.resources 0 (λ i. leb_ℤ (bs.need process_id i) (work i))

-- The locals of `isSafe`, with the two fields of the system that it writes.
pub record Scan : Type 0 where
  pub work : ℕ → ℤ
  pub completed : ℕ
  pub found : Bool
  pub safe_sequence : ℕ → ℕ
  pub finished : ℕ → Bool

-- Process `i` completes and gives its resources back.
unfoldable pub complete : BankerSystem → ℕ → Scan → Scan
complete bs i s = record {
  work = write_range (λ j w. w +ℤ bs.allocation i j) bs.resources 0 s.work;
  completed = s.completed + 1;
  found = true;
  safe_sequence = update s.safe_sequence s.completed i;
  finished = update s.finished i true;
}

-- The body of the `for` loop of `isSafe`.
unfoldable pub visit : BankerSystem → ℕ → Scan → Scan
visit bs i s =
    if not (s.finished i) && can_allocate_resources bs i s.work then complete bs i s else s

-- One round of the `while` loop.
unfoldable pub pass : BankerSystem → Scan → Scan
pass bs s = for_range bs.processes 0 (visit bs) (record s { found = false })

-- The `while` loop with fuel; the flag is what `isSafe` returns.
unfoldable pub search_safe : BankerSystem → ℕ → Scan → Option (Bool × Scan)
search_safe bs zero s = none
search_safe bs (suc fuel) s =
    let s' = pass bs s in
    let rest = search_safe bs fuel s' in
    if ltb s.completed bs.processes
    then (if s'.found then rest else some (false, s'))
    else some (true, s)

-- `work` is not initialised past `resources`, and is not read there.
unfoldable pub start_scan : BankerSystem → Scan
start_scan bs = record {
  work = write_range (λ i _. bs.available i) bs.resources 0 (λ _. pos 0);
  completed = 0;
  found = false;
  safe_sequence = bs.safe_sequence;
  finished = write_range (λ _ _. false) bs.processes 0 bs.finished;
}

with_scan : BankerSystem → Bool × Scan → Bool × BankerSystem
with_scan bs (safe, s) =
    (safe, record bs { safe_sequence = s.safe_sequence; finished = s.finished })

-- Each round of the `while` loop but the last completes a process, so the fuel is enough.
unfoldable pub is_safe : BankerSystem → Option (Bool × BankerSystem)
unfolding with_scan start_scan search_safe pass visit complete can_allocate_resources for_range
    all_range ◌+ℤ◌
is_safe bs = elim (search_safe bs (bs.processes + 1) (start_scan bs)) [
  | none ↦ none
  | some r ↦ some (with_scan bs r)
]

-- The first loop of `requestResources`: `false` is one of its two errors.
unfoldable pub request_fits : BankerSystem → ℕ → (ℕ → ℤ) → Bool
request_fits bs process_id request =
    all_range bs.resources 0
      (λ i. leb_ℤ (request i) (bs.need process_id i) && leb_ℤ (request i) (bs.available i))

take_cell : ℕ → (ℕ → ℤ) → ℕ → BankerSystem → BankerSystem
take_cell p request i bs = record bs {
  available = update bs.available i (bs.available i -ℤ request i);
  allocation = update2 bs.allocation p i (bs.allocation p i +ℤ request i);
  need = update2 bs.need p i (bs.need p i -ℤ request i);
}

give_cell : ℕ → (ℕ → ℤ) → ℕ → BankerSystem → BankerSystem
give_cell p request i bs = record bs {
  available = update bs.available i (bs.available i +ℤ request i);
  allocation = update2 bs.allocation p i (bs.allocation p i -ℤ request i);
  need = update2 bs.need p i (bs.need p i +ℤ request i);
}

-- The second loop: try to allocate.
unfoldable pub take_request : BankerSystem → ℕ → (ℕ → ℤ) → BankerSystem
unfolding take_cell for_range ◌-ℤ◌ ◌+ℤ◌
take_request bs p request = for_range bs.resources 0 (take_cell p request) bs

-- The third loop: roll back.
unfoldable pub give_back : BankerSystem → ℕ → (ℕ → ℤ) → BankerSystem
unfolding give_cell for_range ◌-ℤ◌ ◌+ℤ◌
give_back bs p request = for_range bs.resources 0 (give_cell p request) bs

decide_request : ℕ → (ℕ → ℤ) → Bool × BankerSystem → Bool × BankerSystem
decide_request p request (true, bs) = (true, bs)
decide_request p request (false, bs) = (false, give_back bs p request)

unfoldable pub request_resources : BankerSystem → ℕ → (ℕ → ℤ) → Option (Bool × BankerSystem)
unfolding decide_request request_fits take_request give_back is_safe all_range
request_resources bs p request =
    if request_fits bs p request
    then elim (is_safe (take_request bs p request)) [
      | none ↦ none
      | some r ↦ some (decide_request p request r)
    ]
    else some (false, bs)
