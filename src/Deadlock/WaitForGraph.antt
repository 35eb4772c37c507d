-- ===== src/Deadlock/WaitForGraph.antt =====
-- Wait-for_graph.c: a cycle among processes that wait for one another, found by depth-first search.
-- An entry of the matrix is 0, or else the first process waits for the second.
pub mod Cycle
pub mod Scan
pub mod Search
mod Tests
use os_exploring.Common.{
  ℕ, zero, suc, ◌+◌, Bool, true, false, not, Option, none, some, ◌==◌, if◌then◌else◌, update,
  fill_table,
}

pub record WaitForGraph : Type 0 where
  pub matrix : ℕ → ℕ → ℕ
  pub processes : ℕ

-- The local matrix of `main` is not set before, and the numbers beyond `p` stay as they were.
unfoldable pub initialize_wfg : WaitForGraph → ℕ → WaitForGraph
initialize_wfg graph p = record { matrix = fill_table (λ i j. 0) p 0 p graph.matrix; processes = p }

-- The arrays of the search, which the calls share.
pub record Stacks : Type 0 where
  pub visited : ℕ → Bool
  pub rec_stack : ℕ → Bool

abbrev pub is_edge : WaitForGraph → ℕ → ℕ → Bool
is_edge g v i = not (g.matrix v i == 0)

-- The loop over the successors of `vertex` from `i` on, `left` of them. `visit` is the recursive call.
unfoldable pub scan_edges :
    WaitForGraph
    → (ℕ → Stacks → Option (Bool × Stacks))
    → ℕ
    → ℕ
    → ℕ
    → Stacks
    → Option (Bool × Stacks)
scan_edges g visit vertex zero i st = some (false, st)
scan_edges g visit vertex (suc left) i st =
    let on = λ (now : Stacks). scan_edges g visit vertex left (i + 1) now in
    let grey = λ (now : Stacks). if now.rec_stack i then some (true, now) else on now in
    if is_edge g vertex i
    then (if st.visited i then grey st else elim (visit i st) [
      | none ↦ none
      | some (found, now) ↦ if found then some (true, now) else grey now
    ])
    else on st

abbrev pub leave : ℕ → Bool × Stacks → Bool × Stacks
leave vertex (true, st) = (true, st)
leave vertex (false, st) = (false, record st { rec_stack = update st.rec_stack vertex false })

-- The fuel bounds the depth of the recursion; `none` means that it ran out.
unfoldable pub detect_cycle_dfs : ℕ → WaitForGraph → ℕ → Stacks → Option (Bool × Stacks)
unfolding scan_edges
detect_cycle_dfs zero g vertex st = none
detect_cycle_dfs (suc fuel) g vertex st =
    let entered : Stacks = record {
      visited = update st.visited vertex true;
      rec_stack = update st.rec_stack vertex true;
    } in
    if st.visited vertex
    then some (leave vertex (false, st))
    else elim (scan_edges g (detect_cycle_dfs fuel g) vertex g.processes 0 entered) [
      | none ↦ none
      | some r ↦ some (leave vertex r)
    ]

-- The loop over the vertices from `i` on.
unfoldable pub search_from : WaitForGraph → ℕ → ℕ → Stacks → Option Bool
unfolding detect_cycle_dfs
search_from g zero i st = some false
search_from g (suc left) i st = elim (detect_cycle_dfs (g.processes + 1) g i st) [
  | none ↦ none
  | some (found, now) ↦ if found then some true else search_from g left (i + 1) now
]

-- No call is deeper than there are vertices to visit, so the fuel is enough.
unfoldable pub detect_dead_lock : WaitForGraph → Option Bool
unfolding search_from
detect_dead_lock g =
    search_from g g.processes 0 (record { visited = λ _. false; rec_stack = λ _. false })
