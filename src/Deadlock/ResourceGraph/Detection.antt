-- ===== src/Deadlock/ResourceGraph/Detection.antt =====
-- When `detectDeadLock` of Resource_Allocation_Graph.c ends. Its loop tests `found`, and `found` is
-- set anew by a process that is marked already, so one process that can complete keeps it going.
use os_exploring.Common.{
  ℕ, zero, suc, ◌+◌, ◌<◌, ◌≡◌, refl, ap, subst, ◌⊎◌, inl, inr, true, false, not, arith, some, none,
  pos_part, neg_part, Bool-cases, pos, ◌+ℤ◌, ◌≤ℤ◌, int_laws, leb_ℤ, leb_ℤ-iff, ltb, dec_lt,
  for_range, for_range_inv, in_range, lt→in_range, all_range, all_range_sound, all_range_complete,
  write_range_lem,
}
use os_exploring.Deadlock.ResourceGraph.{
  ResourceGraph, Search, can_complete, visit, round, search_processes, start, running, overflowed,
  answer, detect_deadlock,
}

-- Process `i` asks for no more than is available.
abbrev pub CanStart : ResourceGraph → ℕ → Type 0
CanStart g i = (j : ℕ) → j < g.resources → g.request i j ≤ℤ g.available j

abbrev pub NonNegative : ResourceGraph → Type 0
NonNegative g = (i j : ℕ) → pos 0 ≤ℤ g.allocation i j

-- No unit that was available is taken away again.
abbrev Plenty : ResourceGraph → Search → Type 0
Plenty g s = (j : ℕ) → j < g.resources → g.available j ≤ℤ s.work j

visit-Plenty :
    (g : ResourceGraph) → NonNegative g → (i : ℕ) (s : Search) → Plenty g s → Plenty g (visit g i s)
unfolding visit
visit-Plenty g nonneg i s h = elim (Bool-cases (can_complete g i s.work)) [
  | inl go ↦ rw go (λ j lt.
      rw (write_range_lem (λ j w. w +ℤ g.allocation i j) g.resources 0 s.work j)
        (elim (Bool-cases (in_range 0 g.resources j)) [
          | inl hit ↦ rw hit (omega (int_laws, h j lt, nonneg i j))
          | inr miss ↦ rw miss (h j lt)
        ]))
  | inr stay ↦ rw stay h
]

can_complete-CanStart :
    (g : ResourceGraph) (i : ℕ) (s : Search)
    → CanStart g i
    → Plenty g s
    → can_complete g i s.work ≡ true
unfolding can_complete
can_complete-CanStart g i s can h =
    all_range_complete g.resources 0 (λ j. leb_ℤ (g.request i j) (s.work j))
      (λ j _ lt.
        (leb_ℤ-iff (g.request i j) (s.work j)).1
          (omega (arith, can j (omega arith), h j (omega arith))))

round-Plenty :
    (g : ResourceGraph) → NonNegative g → (s : Search) → Plenty g s → Plenty g (round g s)
unfolding round
round-Plenty g nonneg s h =
    for_range_inv (λ _ t. Plenty g t) (visit g) g.processes (λ i t _ p. visit-Plenty g nonneg i t p)
      g.processes 0 (record s { found = false }) (omega arith) h

-- A process that can start sets `found` in every round.
round-found :
    (g : ResourceGraph)
    → NonNegative g
    → (p : ℕ) → p < g.processes
    → CanStart g p
    → (s : Search) → Plenty g s
    → (round g s).found ≡ true
unfolding round
round-found g nonneg p lt can s h =
    (for_range_inv (λ i t. Plenty g t × (p < i → t.found ≡ true)) (visit g) g.processes keep
        g.processes 0 (record s { found = false }) (omega arith) (h, λ l. absurd (omega arith))).1
      lt
  where
    found_stays : (i : ℕ) (t : Search) → t.found ≡ true → (visit g i t).found ≡ true
    found_stays i t e = unfold visit in (ground arith)

    keep :
        (i : ℕ) (t : Search)
        → i < g.processes
        → Plenty g t × (p < i → t.found ≡ true)
        → Plenty g (visit g i t) × (p < i + 1 → (visit g i t).found ≡ true)
    keep i t ilt (plenty, seen) = (
      visit-Plenty g nonneg i t plenty,
      λ l. elim (dec_lt p i) [
        | yes old ↦ found_stays i t (seen old)
        | no new ↦
            let e : p ≡ i = omega arith in
            let c : can_complete g i t.work ≡ true =
              can_complete-CanStart g i t (subst (CanStart g) e can) plenty in
            unfold visit in (rw c)
      ],
    )

search_processes-endless :
    (g : ResourceGraph)
    → NonNegative g
    → (p : ℕ) → p < g.processes
    → CanStart g p
    → (fuel : ℕ) (s : Search) → Plenty g s
    → (search_processes g fuel s ≡ none)
      ⊎ ((t : Search) × (search_processes g fuel s ≡ some t) × (t.overflow ≡ true))
unfolding search_processes round for_range
search_processes-endless g nonneg p lt can zero s h = inl refl
search_processes-endless g nonneg p lt can (suc fuel) s h =
    let next = round g s in
    let on = round-found g nonneg p lt can s h in
    elim (Bool-cases next.overflow) [
      | inl over ↦ inr (next, rw over refl, over)
      | inr fine ↦
          rw (fine, on)
            (search_processes-endless g nonneg p lt can fuel next (round-Plenty g nonneg s h))
    ]

start-Plenty : (g : ResourceGraph) → Plenty g (start g)
unfolding start
start-Plenty g j lt =
    rw
      (
        write_range_lem (λ i _. g.available i) g.resources 0 (λ _. pos 0) j,
        lt→in_range g.resources j lt,
      )
      (omega arith)

-- If some process asks for no more than is available, and no allocation is negative, then no answer
-- is ever returned: after any number of rounds either the loop is still running, or a sum of `work` has
-- left the range of an int, which is undefined.
pub detect_deadlock-never_ends :
    (g : ResourceGraph) (p fuel : ℕ)
    → NonNegative g
    → p < g.processes
    → CanStart g p
    → (detect_deadlock g fuel ≡ running) ⊎ (detect_deadlock g fuel ≡ overflowed)
unfolding detect_deadlock
detect_deadlock-never_ends g p fuel nonneg lt can =
    elim (search_processes-endless g nonneg p lt can fuel (start g) (start-Plenty g)) [
      | inl on ↦ inl (rw (on, detect_deadlock) refl)
      | inr (t, ended, over) ↦ inr (rw (ended, over, detect_deadlock) refl)
    ]

-- Process `i` asks for more of some resource than is available.
abbrev pub IsBlocked : ResourceGraph → ℕ → Type 0
IsBlocked g i =
    (j : ℕ) × (j < g.resources)
    × (pos_part (g.available j) + neg_part (g.request i j)
        < pos_part (g.request i j) + neg_part (g.available j))

can_complete-IsBlocked :
    (g : ResourceGraph) (i : ℕ) → IsBlocked g i → can_complete g i (start g).work ≡ false
unfolding can_complete start
can_complete-IsBlocked g i (j, lt, over) = elim (Bool-cases (can_complete g i (start g).work)) [
  | inr no_way ↦ no_way
  | inl way ↦
      let fits =
        all_range_sound g.resources 0 (λ k. leb_ℤ (g.request i k) ((start g).work k)) j way
          (omega arith) (omega arith) in
      let cell = write_range_lem (λ i _. g.available i) g.resources 0 (λ _. pos 0) j in
      ground (arith, fits, cell, lt→in_range g.resources j lt)
]

round-IsBlocked :
    (g : ResourceGraph) → ((p : ℕ) → p < g.processes → IsBlocked g p) → round g (start g) ≡ start g
unfolding round
round-IsBlocked g blocked =
    for_range_inv (λ _ t. t ≡ start g) (visit g) g.processes
      (λ i t lt e. rw e (unfold visit in (rw (can_complete-IsBlocked g i (blocked i lt)))))
      g.processes 0 (record (start g) { found = false }) (omega arith) (unfold start in refl)

search_processes-IsBlocked :
    (g : ResourceGraph) (fuel : ℕ)
    → ((p : ℕ) → p < g.processes → IsBlocked g p)
    → search_processes g (suc fuel) (start g) ≡ some (start g)
unfolding search_processes
search_processes-IsBlocked g fuel blocked =
    let e = round-IsBlocked g blocked in
    let quiet : (start g).found ≡ false = unfold start in refl in
    let fine : (start g).overflow ≡ false = unfold start in refl in ground (arith, e, quiet, fine)

nobody_marked : (g : ResourceGraph) (n : ℕ) → not (all_range n 0 (start g).finish) ≡ ltb 0 n
unfolding start all_range
nobody_marked g zero = refl
nobody_marked g (suc n) = ground arith

-- If every process asks for more than is available, one round decides: a deadlock is reported
-- exactly when there is a process at all.
pub detect_deadlock-blocked :
    (g : ResourceGraph) (fuel : ℕ)
    → ((p : ℕ) → p < g.processes → IsBlocked g p)
    → detect_deadlock g (suc fuel) ≡ answer (ltb 0 g.processes)
unfolding detect_deadlock
detect_deadlock-blocked g fuel blocked =
    rw (search_processes-IsBlocked g fuel blocked, detect_deadlock)
      (ap answer (nobody_marked g g.processes))
