-- ===== src/Deadlock/Banker/Demo.antt =====
-- `main` of Banker_algorithm.c: the textbook state with five processes and three resources, and the
-- request of process 1. What `bs` holds before it is initialised is the argument.
use os_exploring.Common.{ℕ, Bool, Option, List, [], ◌∷◌, ℤ, pos, get_or, update, for_range, update2}
use os_exploring.Deadlock.Banker.{
  BankerSystem, initialize_bankers, cal_need, is_safe, request_resources,
}

abbrev pub row : List ℕ → ℕ → ℤ
row xs j = pos (get_or xs j 0)

abbrev pub table : List (List ℕ) → ℕ → ℕ → ℤ
table rows i = row (get_or rows i [])

abbrev pub claims : ℕ → ℕ → ℤ
claims = table (
    (7 ∷ 5 ∷ 3 ∷ [])
    ∷ (3 ∷ 2 ∷ 2 ∷ [])
    ∷ (9 ∷ 0 ∷ 2 ∷ [])
    ∷ (2 ∷ 2 ∷ 2 ∷ [])
    ∷ (4 ∷ 3 ∷ 3 ∷ [])
    ∷ [])

abbrev pub holdings : ℕ → ℕ → ℤ
holdings = table (
    (0 ∷ 1 ∷ 0 ∷ [])
    ∷ (2 ∷ 0 ∷ 0 ∷ [])
    ∷ (3 ∷ 0 ∷ 2 ∷ [])
    ∷ (2 ∷ 1 ∷ 1 ∷ [])
    ∷ (0 ∷ 0 ∷ 2 ∷ [])
    ∷ [])

copy_cell : ℕ → ℕ → BankerSystem → BankerSystem
copy_cell i j bs = record bs {
  allocation = update2 bs.allocation i j (holdings i j);
  max = update2 bs.max i j (claims i j);
}

unfoldable pub demo_system : BankerSystem → BankerSystem
unfolding copy_cell for_range initialize_bankers cal_need
demo_system bs =
    let fresh = initialize_bankers bs 5 3 in
    let supplied = record fresh {
      available = update (update (update fresh.available 0 (pos 3)) 1 (pos 3)) 2 (pos 2);
    } in
    cal_need (for_range 5 0 (λ i. for_range 3 0 (copy_cell i)) supplied)

-- The two calls that `main` makes of the state.
unfoldable pub demo : BankerSystem → Option (Bool × BankerSystem)
unfolding demo_system is_safe request_resources
demo bs = elim (is_safe (demo_system bs)) [
  | Option.none ↦ Option.none
  | Option.some r ↦ request_resources r.1 1 (row (1 ∷ 0 ∷ 2 ∷ []))
]
