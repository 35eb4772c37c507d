-- ===== src/Deadlock/WaitForGraph/Search.antt =====
-- The whole search: it comes to an end within its fuel, and tells whether there is a cycle.
use os_exploring.Common.{
  ℕ, zero, suc, ◌+◌, ◌≤◌, ◌<◌, ◌≡◌, refl, sym, ◌⊎◌, inl, inr, Bool, true, false, not, Option, some,
  arith, Bool-cases, dec_lt, update, ℕ_discrete, subst, count_range-clear, count_range-ext,
  count_range-le,
}
use os_exploring.Deadlock.WaitForGraph.{
  WaitForGraph, Stacks, leave, detect_cycle_dfs, search_from, detect_dead_lock,
}
use os_exploring.Deadlock.WaitForGraph.Cycle.{HasCycle, Ends, ends, Ends-acyclic}
use os_exploring.Deadlock.WaitForGraph.Scan.{
  IsSearching, unvisited, Outcome, Visits, Done, scan_edges-Outcome,
}

-- The state in which the loop over the successors of `v` starts.
abbrev enter : ℕ → Stacks → Stacks
enter v st = record { visited = update st.visited v true; rec_stack = update st.rec_stack v true }

enter-IsSearching :
    (g : WaitForGraph) (v : ℕ) (st : Stacks)
    → v < g.processes
    → IsSearching g v st
    → IsSearching g v (enter v st)
enter-IsSearching g v st below s = record {
  grey = λ u h. ground (arith, s.grey u);
  path = λ u h. elim (ℕ_discrete u v) [
    | yes same ↦ (subst (λ k. k < g.processes) (sym same) below, inl same)
    | no other ↦ s.path u (ground arith)
  ];
  black = λ u h. elim (ℕ_discrete u v) [
    | yes same ↦ inl (ground arith)
    | no other ↦ elim (s.black u (ground arith)) [
      | inl on_stack ↦ inl (ground arith)
      | inr end ↦ inr end
    ]
  ];
}

enter-unvisited :
    (g : WaitForGraph) (v : ℕ) (st : Stacks)
    → v < g.processes
    → st.visited v ≡ false
    → unvisited g (enter v st) + 1 ≡ unvisited g st
enter-unvisited g v st below new =
    let unseen : ℕ → Bool = λ u. not (st.visited u) in
    let same =
      count_range-ext g.processes (λ u. not (update st.visited v true u)) (update unseen v false)
        (λ i low. ground arith) in
    rw same (count_range-clear g.processes unseen v below (rw new))

off_stack :
    (g : WaitForGraph) (v : ℕ) (st : Stacks)
    → IsSearching g v st
    → st.visited v ≡ false
    → st.rec_stack v ≡ false
off_stack g v st s new = ground (arith, s.grey v)

leave-Outcome :
    (g : WaitForGraph) (v : ℕ) (st : Stacks) (r : Bool × Stacks)
    → st.visited v ≡ false
    → st.rec_stack v ≡ false
    → Outcome g (λ _. Done g v g.processes) v (enter v st) r
    → Outcome g (λ now. now.visited v ≡ true) v st (leave v r)
leave-Outcome g v st (true, now) new off o = o
leave-Outcome g v st (false, now) new off (s, l, d) = (
  record {
    grey = λ u h. s.grey u (ground arith);
    path = λ u h. s.path u (ground arith);
    black = λ u h. elim (ℕ_discrete u v) [
      | yes same ↦ inr (subst (λ k. Ends g k) (sym same) (ends v d))
      | no other ↦ elim (s.black u h) [ inl on_stack ↦ inl (ground arith) | inr end ↦ inr end ]
    ];
  },
  record {
    visits = λ u h. l.visits u (ground arith);
    stack = λ u. elim (ℕ_discrete u v) [
      | yes same ↦ ground (arith, off)
      | no other ↦ ground (arith, l.stack u)
    ];
  },
  l.visits v (ground arith),
)

-- As many calls deep as there are processes to visit, the search comes to an end.
detect_cycle_dfs-Outcome : (g : WaitForGraph) (fuel : ℕ) → Visits g fuel (detect_cycle_dfs fuel g)
unfolding detect_cycle_dfs
detect_cycle_dfs-Outcome g zero v st below new few s =
    absurd (omega (arith, enter-unvisited g v st below new))
detect_cycle_dfs-Outcome g (suc fuel) v st below new few s =
    let (r, ran, o) =
      scan_edges-Outcome g fuel (detect_cycle_dfs fuel g) (detect_cycle_dfs-Outcome g fuel) v
        g.processes 0 (omega arith) (enter v st) (omega (arith, enter-unvisited g v st below new))
        (enter-IsSearching g v st below s) (λ k none_. absurd (omega arith)) in
    (leave v r, rw (new, ran), leave-Outcome g v st r new (off_stack g v st s new) o)

-- Between two searches of detect_dead_lock the stack is empty, and all processes below `i` are done.
record Between (g : WaitForGraph) (i : ℕ) (st : Stacks) : Type 0 where
  empty : (u : ℕ) → st.rec_stack u ≡ false
  ended : (u : ℕ) → st.visited u ≡ true → Ends g u
  below : (u : ℕ) → u < i → st.visited u ≡ true

Between-IsSearching :
    (g : WaitForGraph) (i v : ℕ) (st : Stacks) → Between g i st → IsSearching g v st
Between-IsSearching g i v st b = record {
  grey = λ u h. absurd (cc (h, b.empty u));
  path = λ u h. absurd (cc (h, b.empty u));
  black = λ u h. inr (b.ended u h);
}

below_next :
    (st now : Stacks) (i : ℕ)
    → ((u : ℕ) → u < i → now.visited u ≡ true)
    → now.visited i ≡ true
    → (u : ℕ) → u < i + 1
    → now.visited u ≡ true
below_next st now i old here u low = elim (dec_lt u i) [
  | yes a ↦ old u a
  | no b ↦ let same : i ≡ u = omega arith in subst (λ k. now.visited k ≡ true) same here
]

-- What a search of detect_dead_lock gives.
abbrev Next : WaitForGraph → ℕ → Bool × Stacks → Type 0
Next g i r = ((r.0 ≡ true) × HasCycle g) ⊎ ((r.0 ≡ false) × Between g (i + 1) r.1)

Outcome-Next :
    (g : WaitForGraph) (i : ℕ) (st : Stacks) (r : Bool × Stacks)
    → Between g i st
    → Outcome g (λ now. now.visited i ≡ true) i st r
    → Next g i r
Outcome-Next g i st (true, now) b o = inl (refl, o)
Outcome-Next g i st (false, now) b (s, l, seen) = inr (
  refl,
  record {
    empty = λ u. cc (l.stack u, b.empty u);
    ended = λ u h. elim (s.black u h) [
      | inl on_stack ↦ absurd (cc (on_stack, l.stack u, b.empty u))
      | inr end ↦ end
    ];
    below = below_next st now i (λ u a. l.visits u (b.below u a)) seen;
  },
)

-- A search of detect_dead_lock, from a process that may have been visited before.
dfs-Next :
    (g : WaitForGraph) (fuel i : ℕ) (st : Stacks)
    → unvisited g st ≤ fuel
    → i < g.processes
    → Between g i st
    → (r : Bool × Stacks) × (detect_cycle_dfs (suc fuel) g i st ≡ some r) × Next g i r
dfs-Next g fuel i st few low b = elim (Bool-cases (st.visited i)) [
  | inr new ↦
      let (r, ran, o) =
        detect_cycle_dfs-Outcome g (suc fuel) i st low new (omega arith)
          (Between-IsSearching g i i st b) in
      (r, ran, Outcome-Next g i st r b o)
  | inl old ↦ (
    leave i (false, st),
    unfold detect_cycle_dfs in (rw old),
    inr (
      refl,
      record {
        empty = λ u. ground (arith, b.empty u);
        ended = b.ended;
        below = below_next st st i b.below old;
      },
    ),
  )
]

-- The two answers, and when each is given.
abbrev Answers : WaitForGraph → Option Bool → Type 0
Answers g o = ((o ≡ some true) × HasCycle g) ⊎ ((o ≡ some false) × ¬ HasCycle g)

search_from-Answers :
    (g : WaitForGraph) (left i : ℕ) (st : Stacks)
    → i + left ≡ g.processes
    → Between g i st
    → Answers g (search_from g left i st)
unfolding search_from
search_from-Answers g zero i st last b =
    inr (refl, λ (v, low, p). Ends-acyclic (b.ended v (b.below v (omega arith))) p)
search_from-Answers g (suc left) i st last b =
    let fuel : g.processes + 1 ≡ suc g.processes = omega arith in
    let few = count_range-le g.processes (λ u. not (st.visited u)) in
    let ((found, now), ran, next) = dfs-Next g g.processes i st few (omega arith) b in
    elim next [
      | inl (yes_, cycle) ↦ inl (rw (fuel, ran, yes_, search_from), cycle)
      | inr (no_, b') ↦
          let rest = search_from-Answers g left (i + 1) now (omega arith) b' in
          rw (fuel, ran, no_, search_from) rest
    ]

-- The search always ends within its fuel, with a deadlock reported exactly if some process waits for
-- itself, directly or through others.
pub detect_dead_lock_lem :
    (g : WaitForGraph)
    → ((detect_dead_lock g ≡ some true) × HasCycle g)
      ⊎ ((detect_dead_lock g ≡ some false) × ¬ HasCycle g)
unfolding detect_dead_lock
detect_dead_lock_lem g =
    search_from-Answers g g.processes 0 (record { visited = λ _. false; rec_stack = λ _. false })
      (omega arith)
      (record { empty = λ u. refl; ended = λ u h. absurd cc; below = λ u h. absurd (omega arith) })
