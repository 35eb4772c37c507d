-- ===== src/Deadlock/SafetyAlgorithm/Agreement.antt =====
-- Safety_algorithm.c and Banker_algorithm.c answer alike.
use os_exploring.Common.{
  ℕ, zero, suc, ◌+◌, ◌≡◌, refl, ap, fun_ext, Bool, false, Option, none, some, arith, pos,
  write_range, write_range_lem,
}
use os_exploring.Deadlock.Banker
use os_exploring.Deadlock.Banker.{BankerSystem, Scan}
use os_exploring.Deadlock.SafetyAlgorithm.{BankerState, visit, can_allocate, search_safe, is_safe}

-- The same books in a `BankerSystem`.
abbrev pub as_system : BankerState → (ℕ → ℕ) → BankerSystem
as_system st garbage = record {
  processes = st.processes;
  resources = st.resources;
  allocation = st.allocation;
  max = st.max;
  need = st.need;
  available = st.available;
  safe_sequence = garbage;
  finished = λ _. false;
}

abbrev pub verdict {ℓ} : {A : Type ℓ} → Option (Bool × A) → Option Bool
verdict none = none
verdict (some r) = some r.0

visit_agrees :
    (st : BankerState) (garbage : ℕ → ℕ) (i : ℕ) (s : Scan)
    → visit st i s ≡ Banker.visit (as_system st garbage) i s
unfolding visit Banker.visit Banker.complete can_allocate Banker.can_allocate_resources
visit_agrees st garbage i s = refl

search_safe_agrees :
    (st : BankerState) (garbage : ℕ → ℕ) (fuel : ℕ) (s : Scan)
    → search_safe st fuel s ≡ verdict (Banker.search_safe (as_system st garbage) fuel s)
unfolding search_safe Banker.search_safe Banker.pass
search_safe_agrees st garbage zero s = refl
search_safe_agrees st garbage (suc fuel) s =
    rw
      (
        fun_ext (λ i. fun_ext (λ t. visit_agrees st garbage i t)),
        search_safe_agrees st garbage fuel (Banker.pass (as_system st garbage) s),
      )
      (ground arith)

start_agrees :
    (st : BankerState) (garbage : ℕ → ℕ)
    → Banker.start_scan (as_system st garbage) ≡ record {
      work = write_range (λ i _. st.available i) st.resources 0 (λ _. pos 0);
      completed = 0;
      found = false;
      safe_sequence = garbage;
      finished = λ _. false;
    }
unfolding Banker.start_scan
start_agrees st garbage =
    ap
      (λ (f : ℕ → Bool).
        let s : Scan = record {
          work = write_range (λ i _. st.available i) st.resources 0 (λ _. pos 0);
          completed = 0;
          found = false;
          safe_sequence = garbage;
          finished = f;
        } in
        s)
      (fun_ext (λ k. ground (arith, write_range_lem (λ _ _. false) st.processes 0 (λ _. false) k)))

-- On the same books the safety test of one program gives the answer of the other's.
pub is_safe_agrees :
    (st : BankerState) (garbage : ℕ → ℕ)
    → is_safe st garbage ≡ verdict (Banker.is_safe (as_system st garbage))
unfolding is_safe Banker.is_safe
is_safe_agrees st garbage =
    rw
      (
        ← start_agrees st garbage,
        search_safe_agrees st garbage (st.processes + 1) (Banker.start_scan (as_system st garbage)),
      )
      (ground arith)
