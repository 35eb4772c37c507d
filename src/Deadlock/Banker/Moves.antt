-- ===== src/Deadlock/Banker/Moves.antt =====
-- The loops of `requestResources` in Banker_algorithm.c that move units, and the roll-back.

use os_exploring.Common.{
  ℕ, zero, suc, ◌+◌, ◌≡◌, refl, ◌∙◌, Bool, ◌&&◌, arith, ℤ, ◌+ℤ◌, ◌-ℤ◌, if◌then◌else◌, update,
  update2, for_range, in_range, ◌==◌, +ℤ_-ℤ_cancel, -ℤ_+ℤ_cancel,
}
use os_exploring.Deadlock.Banker.{BankerSystem, take_request, give_back}

-- What the loops over `n` cells of row `p`, from cell `i` on, leave behind.
pub record Moved (bs : BankerSystem) (p : ℕ) (n i : ℕ) (plus minus : ℤ → ℕ → ℤ) (t : BankerSystem)
    : Type 0 where
  pub processes : t.processes ≡ bs.processes
  pub resources : t.resources ≡ bs.resources
  pub max : t.max ≡ bs.max
  pub available :
      (j : ℕ)
      → t.available j ≡ (if in_range i n j then minus (bs.available j) j else bs.available j)
  pub allocation :
      (a j : ℕ)
      → t.allocation a j
        ≡ (if (p == a) && in_range i n j then plus (bs.allocation a j) j else bs.allocation a j)
  pub need :
      (a j : ℕ)
      → t.need a j ≡ (if (p == a) && in_range i n j then minus (bs.need a j) j else bs.need a j)

-- `take_cell` and `give_cell` differ in the sign alone.
move_cell : ℕ → (ℤ → ℕ → ℤ) → (ℤ → ℕ → ℤ) → ℕ → BankerSystem → BankerSystem
move_cell p plus minus i bs = record bs {
  available = update bs.available i (minus (bs.available i) i);
  allocation = update2 bs.allocation p i (plus (bs.allocation p i) i);
  need = update2 bs.need p i (minus (bs.need p i) i);
}

module _ (p : ℕ) (plus minus : ℤ → ℕ → ℤ) where
  move_range-Moved :
      (n i : ℕ) (bs : BankerSystem)
      → Moved bs p n i plus minus (for_range n i (move_cell p plus minus) bs)
  unfolding for_range move_cell
  move_range-Moved zero i bs = record {
    processes = refl;
    resources = refl;
    max = refl;
    available = λ j. ground arith;
    allocation = λ a j. ground arith;
    need = λ a j. ground arith;
  }
  move_range-Moved (suc n) i bs =
      let m : Moved (move_cell p plus minus i bs) p n (i + 1) plus minus
          (for_range n (i + 1) (move_cell p plus minus) (move_cell p plus minus i bs)) =
        move_range-Moved n (i + 1) (move_cell p plus minus i bs) in
      record {
        processes = m.processes;
        resources = m.resources;
        max = m.max;
        available = λ j. ground (arith, m.available j);
        allocation = λ a j. ground (arith, m.allocation a j);
        need = λ a j. ground (arith, m.need a j);
      }

abbrev pub grow : (ℕ → ℤ) → ℤ → ℕ → ℤ
grow request v j = v +ℤ request j

abbrev pub shrink : (ℕ → ℤ) → ℤ → ℕ → ℤ
shrink request v j = v -ℤ request j

module _ (bs : BankerSystem) (p : ℕ) (request : ℕ → ℤ) where
  pub take_request-Moved :
      Moved bs p bs.resources 0 (grow request) (shrink request) (take_request bs p request)
  unfolding take_request move_cell
  take_request-Moved = move_range-Moved p (grow request) (shrink request) bs.resources 0 bs

  pub give_back-Moved :
      Moved bs p bs.resources 0 (shrink request) (grow request) (give_back bs p request)
  unfolding give_back move_cell
  give_back-Moved = move_range-Moved p (shrink request) (grow request) bs.resources 0 bs

-- The banker's books: what every operation has to agree on.
pub record SameBooks (bs t : BankerSystem) : Type 0 where
  pub processes : t.processes ≡ bs.processes
  pub resources : t.resources ≡ bs.resources
  pub max : t.max ≡ bs.max
  pub available : (j : ℕ) → t.available j ≡ bs.available j
  pub allocation : (i j : ℕ) → t.allocation i j ≡ bs.allocation i j
  pub need : (i j : ℕ) → t.need i j ≡ bs.need i j

-- The roll-back undoes the trial, cell by cell; `isSafe` in between has its own two fields only.
pub give_back-take_request :
    (bs : BankerSystem) (p : ℕ) (request : ℕ → ℤ) (seq : ℕ → ℕ) (done : ℕ → Bool)
    → SameBooks bs (
        give_back
          (record (take_request bs p request) { safe_sequence = seq; finished = done })
          p
          request)
give_back-take_request bs p request seq done =
    let t : BankerSystem = record (take_request bs p request) {
      safe_sequence = seq;
      finished = done;
    } in
    let m = take_request-Moved bs p request in
    let b = give_back-Moved t p request in
    let n : t.resources ≡ bs.resources = m.resources in
    record {
      processes = b.processes ∙ m.processes;
      resources = b.resources ∙ m.resources;
      max = b.max ∙ m.max;
      available = λ j.
          ground
            (arith, n, b.available j, m.available j, -ℤ_+ℤ_cancel (bs.available j) (request j));
      allocation = λ i j. ground (
        arith,
        n,
        b.allocation i j,
        m.allocation i j,
        +ℤ_-ℤ_cancel (bs.allocation i j) (request j),
      );
      need =
          λ i j. ground (arith, n, b.need i j, m.need i j, -ℤ_+ℤ_cancel (bs.need i j) (request j));
    }
