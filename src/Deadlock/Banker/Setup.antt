-- ===== src/Deadlock/Banker/Setup.antt =====
-- `initializeBankers` and `calNeed` of Banker_algorithm.c, cell by cell.
use os_exploring.Common.{
  ℕ, zero, suc, ◌+◌, ◌≡◌, refl, Bool, ◌&&◌, arith, ℤ, pos, ◌-ℤ◌, ◌==◌, if◌then◌else◌, for_range,
  in_range, ap, ◌∙◌, lt→in_range, fill_table_lem, write_range_lem, ◌<◌, ◌+ℤ◌, int_laws,
}
use os_exploring.Deadlock.Banker.{BankerSystem, clear_cell, clear_row, initialize_bankers, cal_need}

-- What the rows from `i` on, `n` of them, and `m` cells of each from `j` on, are after the loops.
record Cleared (bs : BankerSystem) (rows cells : ℕ → Bool) (t : BankerSystem) : Type 0 where
  processes : t.processes ≡ bs.processes
  resources : t.resources ≡ bs.resources
  max : t.max ≡ bs.max
  available : t.available ≡ bs.available
  allocation :
      (a b : ℕ) → t.allocation a b ≡ (if rows a && cells b then pos 0 else bs.allocation a b)
  need : (a b : ℕ) → t.need a b ≡ (if rows a && cells b then pos 0 else bs.need a b)

clear_row-Cleared :
    (m j i : ℕ) (bs : BankerSystem)
    → Cleared bs (λ a. i == a) (in_range j m) (for_range m j (clear_cell i) bs)
unfolding for_range clear_cell
clear_row-Cleared zero j i bs = record {
  processes = refl;
  resources = refl;
  max = refl;
  available = refl;
  allocation = λ a b. ground arith;
  need = λ a b. ground arith;
}
clear_row-Cleared (suc m) j i bs =
    let c : Cleared (clear_cell i j bs) (λ a. i == a) (in_range (j + 1) m)
        (for_range m (j + 1) (clear_cell i) (clear_cell i j bs)) =
      clear_row-Cleared m (j + 1) i (clear_cell i j bs) in
    record {
      processes = c.processes;
      resources = c.resources;
      max = c.max;
      available = c.available;
      allocation = λ a b. ground (arith, c.allocation a b);
      need = λ a b. ground (arith, c.need a b);
    }

clear_rows-Cleared :
    (n i m : ℕ) (bs : BankerSystem)
    → Cleared bs (in_range i n) (in_range 0 m) (for_range n i (clear_row m) bs)
unfolding for_range clear_row
clear_rows-Cleared zero i m bs = record {
  processes = refl;
  resources = refl;
  max = refl;
  available = refl;
  allocation = λ a b. ground arith;
  need = λ a b. ground arith;
}
clear_rows-Cleared (suc n) i m bs =
    let r = clear_row-Cleared m 0 i bs in
    let c : Cleared (clear_row m i bs) (in_range (i + 1) n) (in_range 0 m)
        (for_range n (i + 1) (clear_row m) (clear_row m i bs)) =
      clear_rows-Cleared n (i + 1) m (clear_row m i bs) in
    record {
      processes = c.processes ∙ r.processes;
      resources = c.resources ∙ r.resources;
      max = c.max ∙ r.max;
      available = c.available ∙ r.available;
      allocation = λ a b. ground (arith, c.allocation a b, r.allocation a b);
      need = λ a b. ground (arith, c.need a b, r.need a b);
    }

-- `initializeBankers` clears the allocation, the need and what is available; it leaves `max` as it
-- was, though its inner loop has room for it: `allocation` is assigned twice.
pub initialize_bankers_lem :
    (bs : BankerSystem) (p r i j : ℕ)
    → i < p
    → j < r
    → ((initialize_bankers bs p r).allocation i j ≡ pos 0)
      × ((initialize_bankers bs p r).need i j ≡ pos 0)
      × ((initialize_bankers bs p r).available j ≡ pos 0)
      × ((initialize_bankers bs p r).max i j ≡ bs.max i j)
unfolding initialize_bankers
initialize_bankers_lem bs p r i j ilt jlt =
    let start : BankerSystem = record bs { processes = p; resources = r } in
    let c = clear_rows-Cleared p 0 r start in
    (
      ground (arith, c.allocation i j),
      ground (arith, c.need i j),
      ground (
        arith,
        write_range_lem (λ _ _. pos 0) r 0 (for_range p 0 (clear_row r) start).available j,
      ),
      ap (λ (m : ℕ → ℕ → ℤ). m i j) c.max,
    )

-- After `calNeed`, what a process holds and what it still needs add up to its claim.
pub cal_need_lem :
    (bs : BankerSystem) (i j : ℕ)
    → i < bs.processes
    → j < bs.resources
    → (cal_need bs).allocation i j +ℤ (cal_need bs).need i j ≡ (cal_need bs).max i j
unfolding cal_need
cal_need_lem bs i j ilt jlt =
    rw
      (
        fill_table_lem (λ a b. bs.max a b -ℤ bs.allocation a b) bs.processes 0 bs.resources bs.need
            i j,
        lt→in_range bs.processes i ilt,
        lt→in_range bs.resources j jlt,
      )
      (omega int_laws)
