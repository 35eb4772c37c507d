-- ===== src/Deadlock/WaitForGraph/Cycle.antt =====
-- Who waits for whom, and cycles, without the search.
use os_exploring.Common.{ℕ, ◌<◌, ◌≡◌, ◌⊎◌, inl, inr, refl, sym, subst, true}
use os_exploring.Deadlock.WaitForGraph.{WaitForGraph, is_edge}

-- The first process waits for the second, directly or through others.
pub data WaitsFor (g : WaitForGraph) (v : ℕ) : ℕ → Type 0 where
  direct : (w : ℕ) → w < g.processes → is_edge g v w ≡ true → WaitsFor g v w
  through :
      {u : ℕ} → (w : ℕ) → WaitsFor g v u → w < g.processes → is_edge g u w ≡ true → WaitsFor g v w

-- A deadlock: some process waits for itself.
abbrev pub HasCycle : WaitForGraph → Type 0
HasCycle g = (v : ℕ) × (v < g.processes) × WaitsFor g v v

-- Every chain of waiting that starts at `v` ends.
pub data Ends (g : WaitForGraph) : ℕ → Type 0 where
  ends : (v : ℕ) → ((w : ℕ) → w < g.processes → is_edge g v w ≡ true → Ends g w) → Ends g v

-- The first edge of a path.
first_wait :
    {g : WaitForGraph} {v u : ℕ}
    → WaitsFor g v u
    → (w : ℕ) × (w < g.processes) × (is_edge g v w ≡ true) × ((w ≡ u) ⊎ WaitsFor g w u)
first_wait (direct w below e) = (w, below, e, inl refl)
first_wait {g} (through x p below e) =
    let (w, low, first, rest) = first_wait p in
    (
      w,
      low,
      first,
      inr (elim rest [
        | inl same ↦ subst (λ k. WaitsFor g k x) (sym same) (direct x below e)
        | inr q ↦ through x q below e
      ]),
    )

-- Where every chain ends, nobody waits for itself.
pub Ends-acyclic : {g : WaitForGraph} {v : ℕ} → Ends g v → ¬ WaitsFor g v v
Ends-acyclic {g} (ends v next) p =
    let (w, below, e, rest) = first_wait p in
    Ends-acyclic (next w below e) (elim rest [
      | inl same ↦ subst (λ k. WaitsFor g k k) (sym same) p
      | inr q ↦ through w q below e
    ])
