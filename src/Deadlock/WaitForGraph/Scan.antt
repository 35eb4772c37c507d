-- ===== src/Deadlock/WaitForGraph/Scan.antt =====
-- The loop over the successors of a process, for a recursive call that does what it should.
use os_exploring.Common.{
  ℕ, zero, suc, ◌+◌, ◌≤◌, ◌<◌, ◌≡◌, refl, sym, ◌⊎◌, inl, inr, Bool, true, false, not, Option, some,
  arith, Bool-cases, dec_lt, count_range, count_range_mono, subst,
}
use os_exploring.Deadlock.WaitForGraph.{WaitForGraph, Stacks, is_edge, scan_edges}
use os_exploring.Deadlock.WaitForGraph.Cycle.{WaitsFor, direct, through, HasCycle, Ends}

-- What holds whenever the search stands at `v`: who is on the stack was visited and waits for `v`;
-- for those visited that are off the stack, every chain ends.
pub record IsSearching (g : WaitForGraph) (v : ℕ) (st : Stacks) : Type 0 where
  pub grey : (u : ℕ) → st.rec_stack u ≡ true → st.visited u ≡ true
  pub path : (u : ℕ) → st.rec_stack u ≡ true → (u < g.processes) × ((u ≡ v) ⊎ WaitsFor g u v)
  pub black : (u : ℕ) → st.visited u ≡ true → (st.rec_stack u ≡ true) ⊎ Ends g u

-- The second state is a later one, with the same stack.
pub record Later (st now : Stacks) : Type 0 where
  pub visits : (u : ℕ) → st.visited u ≡ true → now.visited u ≡ true
  pub stack : (u : ℕ) → now.rec_stack u ≡ st.rec_stack u

abbrev pub unvisited : WaitForGraph → Stacks → ℕ
unvisited g st = count_range g.processes (λ u. not (st.visited u))

pub Later-unvisited :
    (g : WaitForGraph) (st now : Stacks) → Later st now → unvisited g now ≤ unvisited g st
Later-unvisited g st now l =
    count_range_mono g.processes (λ u. not (now.visited u)) (λ u. not (st.visited u))
      (λ u low e. ground (arith, l.visits u))

-- The outcome of a search that started at `v`.
abbrev pub Outcome : WaitForGraph → (Stacks → Type 0) → ℕ → Stacks → Bool × Stacks → Type 0
Outcome g More v st (true, now) = HasCycle g
Outcome g More v st (false, now) = IsSearching g v now × Later st now × More now

-- The recursive call, for states with at most `room` processes to visit: it comes to an end, and the
-- process that it visited is visited and off the stack.
abbrev pub Visits : WaitForGraph → ℕ → (ℕ → Stacks → Option (Bool × Stacks)) → Type 0
Visits g room visit =
    (i : ℕ) (st : Stacks)
    → i < g.processes
    → st.visited i ≡ false
    → unvisited g st ≤ room
    → IsSearching g i st
    → (r : Bool × Stacks) × (visit i st ≡ some r) × Outcome g (λ now. now.visited i ≡ true) i st r

-- The successors from `i` to `n` are done: every chain from them ends.
abbrev pub Done : WaitForGraph → ℕ → ℕ → Type 0
Done g v i = (k : ℕ) → k < i → is_edge g v k ≡ true → Ends g k

IsSearching-successor :
    (g : WaitForGraph) (v i : ℕ) (st : Stacks)
    → i < g.processes
    → is_edge g v i ≡ true
    → IsSearching g v st
    → IsSearching g i st
IsSearching-successor g v i st below e s = record {
  grey = s.grey;
  path = λ u h.
      let (low, way) = s.path u h in
      (
        low,
        inr (elim way [
          | inl same ↦ subst (λ k. WaitsFor g k i) (sym same) (direct i below e)
          | inr p ↦ through i p below e
        ]),
      );
  black = s.black;
}

-- Back at `v`, with the stack as it was.
IsSearching-back :
    (g : WaitForGraph) (v i : ℕ) (st now : Stacks)
    → IsSearching g v st
    → IsSearching g i now
    → Later st now
    → IsSearching g v now
IsSearching-back g v i st now s t l = record {
  grey = t.grey;
  path = λ u h. s.path u (rw (l.stack u) at h);
  black = t.black;
}

-- An edge to a process on the stack closes a cycle.
grey-HasCycle :
    (g : WaitForGraph) (v i : ℕ) (st : Stacks)
    → i < g.processes
    → is_edge g v i ≡ true
    → IsSearching g v st
    → st.rec_stack i ≡ true
    → HasCycle g
grey-HasCycle g v i st below e s h =
    let (low, way) = s.path i h in
    (
      i,
      below,
      elim way [
        | inl same ↦ direct i below (subst (λ k. is_edge g k i ≡ true) (sym same) e)
        | inr p ↦ through i p below e
      ],
    )

Later-refl : (st : Stacks) → Later st st
Later-refl st = record { visits = λ u h. h; stack = λ u. refl }

Later-trans : (st now then' : Stacks) → Later st now → Later now then' → Later st then'
Later-trans st now then' a b = record {
  visits = λ u h. b.visits u (a.visits u h);
  stack = λ u. cc (a.stack u, b.stack u);
}

Outcome-Later :
    (g : WaitForGraph) (More : Stacks → Type 0) (v : ℕ) (st now : Stacks) (r : Bool × Stacks)
    → Later st now
    → Outcome g More v now r
    → Outcome g More v st r
Outcome-Later g More v st now (true, end) l o = o
Outcome-Later g More v st now (false, end) l (s, l', m) = (s, Later-trans st now end l l', m)

Done-next :
    (g : WaitForGraph) (v i : ℕ) → Done g v i → (is_edge g v i ≡ true → Ends g i) → Done g v (i + 1)
Done-next g v i d here k below e = elim (dec_lt k i) [
  | yes old ↦ d k old e
  | no new ↦
      let at : i ≡ k = omega arith in
      subst (λ j. Ends g j) at (here (subst (λ j. is_edge g v j ≡ true) (sym at) e))
]

-- What the loop is to give from a state.
abbrev Scans : WaitForGraph → (ℕ → Stacks → Option (Bool × Stacks)) → ℕ → ℕ → ℕ → Stacks → Type 0
Scans g visit v left i st =
    (r : Bool × Stacks) × (scan_edges g visit v left i st ≡ some r)
    × Outcome g (λ _. Done g v g.processes) v st r

module _ (g : WaitForGraph) (room : ℕ) (visit : ℕ → Stacks → Option (Bool × Stacks))
    (visits : Visits g room visit) (v : ℕ) where
  -- The rest of the loop, from any state that the search may be in.
  abbrev Rest : ℕ → ℕ → Type 0
  Rest left i =
      (now : Stacks)
      → unvisited g now ≤ room
      → IsSearching g v now
      → Done g v i
      → Scans g visit v left i now

  after_visit :
      (left i : ℕ) (st : Stacks) (found : Bool) (now : Stacks)
      → i < g.processes
      → unvisited g st ≤ room
      → IsSearching g v st
      → Done g v i
      → is_edge g v i ≡ true
      → st.visited i ≡ false
      → visit i st ≡ some (found, now)
      → Outcome g (λ end. end.visited i ≡ true) i st (found, now)
      → Rest left (i + 1)
      → Scans g visit v (suc left) i st
  unfolding scan_edges
  after_visit left i st true now below few s d e new ran o rest =
      ((true, now), rw (e, new, ran, scan_edges), o)
  after_visit left i st false now below few s d e new ran (t, l, seen) rest =
      elim (Bool-cases (now.rec_stack i)) [
        | inl on_stack ↦ absurd (cc (s.grey i (rw (l.stack i) at on_stack), new))
        | inr off ↦
            let end : Ends g i = elim (t.black i seen) [
              | inl on_stack ↦ absurd (cc (on_stack, off))
              | inr end ↦ end
            ] in
            let less = Later-unvisited g st now l in
            let (r, ran', o) =
              rest now (omega (arith, less)) (IsSearching-back g v i st now s t l)
                (Done-next g v i d (λ _. end)) in
            (r, rw (e, new, ran, off, scan_edges) ran', Outcome-Later g _ v st now r l o)
      ]

  pub scan_edges-Outcome : (left i : ℕ) → i + left ≡ g.processes → Rest left i
  unfolding scan_edges
  scan_edges-Outcome zero i last st few s d =
      let at : i ≡ g.processes = omega arith in
      ((false, st), refl, (s, Later-refl st, subst (λ k. Done g v k) at d))
  scan_edges-Outcome (suc left) i last st few s d =
      let rest = scan_edges-Outcome left (i + 1) (omega arith) in
      elim (Bool-cases (is_edge g v i)) [
        | inr none_ ↦
            let (r, ran, o) = rest st few s (Done-next g v i d (λ e. absurd (cc (e, none_)))) in
            (r, rw (none_, scan_edges) ran, o)
        | inl e ↦ elim (Bool-cases (st.visited i)) [
          | inr new ↦
              let ((found, now), ran, o) =
                visits i st (omega arith) new few
                  (IsSearching-successor g v i st (omega arith) e s) in
              after_visit left i st found now (omega arith) few s d e new ran o rest
          | inl old ↦ elim (Bool-cases (st.rec_stack i)) [
            | inl on_stack ↦ (
              (true, st),
              rw (e, old, on_stack, scan_edges),
              grey-HasCycle g v i st (omega arith) e s on_stack,
            )
            | inr off ↦
                let end : Ends g i = elim (s.black i old) [
                  | inl on_stack ↦ absurd (cc (on_stack, off))
                  | inr end ↦ end
                ] in
                let (r, ran, o) = rest st few s (Done-next g v i d (λ _. end)) in
                (r, rw (e, old, off, scan_edges) ran, o)
          ]
        ]
      ]
