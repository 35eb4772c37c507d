-- ===== src/Storage/Journal/Lines.antt =====
-- The lines of the entries that wait, and what a checkpoint makes of them.
use os_exploring.Common.{
  ℕ, zero, suc, ◌+◌, ◌-◌, ◌≤◌, ◌<◌, ◌≡◌, refl, sym, ap, ◌∙◌, inl, inr, Bool-cases, arith, List, [],
  ◌∷◌, ◌++◌, ◌==◌, for_range, for_range_inv, sum_range,
}
use mathlib.Core.List.{append-nil, append_assoc}
use os_exploring.Storage.Journal.{
  JournalEntry, Commit, RecoveryManager, commit_line, held, free_entry, commit_entry,
  create_checkpoint,
}

-- The lines of the first `n` entries.
abbrev pub lines : ℕ → (ℕ → JournalEntry) → List Commit
lines zero entries = []
lines (suc n) entries = lines n entries ++ commit_line (entries n) ∷ []

pub lines-ext :
    (n : ℕ) (f g : ℕ → JournalEntry) → ((i : ℕ) → i < n → f i ≡ g i) → lines n f ≡ lines n g
lines-ext zero f g same = refl
lines-ext (suc n) f g same =
    rw (lines-ext n f g (λ i l. same i (omega arith)), same n (omega arith)) refl

-- The blocks of malloc that an entry holds.
abbrev pub blocks : JournalEntry → ℕ
blocks e = held e.old_data + held e.new_data

-- All that was logged: what is committed, and what waits.
abbrev pub logged : RecoveryManager → List Commit
logged m = m.printed ++ lines m.journal_count m.journal_entries

-- The entries that wait hold the blocks that are live.
pub record IsJournal (m : RecoveryManager) : Type 0 where
  pub bounded : m.journal_count ≤ m.journal_capacity
  pub owned : m.live ≡ sum_range m.journal_count (λ i. blocks (m.journal_entries i))

-- After `k` rounds of the loop of a checkpoint.
record Committed (m : RecoveryManager) (k : ℕ) (d : RecoveryManager) : Type 0 where
  same_entries : d.journal_entries ≡ m.journal_entries
  same_capacity : d.journal_capacity ≡ m.journal_capacity
  lines_of : d.printed ≡ m.printed ++ lines k m.journal_entries
  freed : d.live ≡ m.live - sum_range k (λ i. blocks (m.journal_entries i))

loop_Committed :
    (m : RecoveryManager) → Committed m m.journal_count (for_range m.journal_count 0 commit_entry m)
unfolding commit_entry free_entry sum_range
loop_Committed m =
    for_range_inv (Committed m) commit_entry m.journal_count
      (λ k d low h. record {
        same_entries = h.same_entries;
        same_capacity = h.same_capacity;
        lines_of =
            let here : d.journal_entries k ≡ m.journal_entries k = ap (λ f. f k) h.same_entries in
            let next : k + 1 ≡ suc k = omega arith in
            rw (h.lines_of, here, next, append_assoc) refl;
        freed =
            let here : d.journal_entries k ≡ m.journal_entries k = ap (λ f. f k) h.same_entries in
            let next : k + 1 ≡ suc k = omega arith in rw (here, next) (omega (arith, h.freed));
      })
      m.journal_count 0 m (omega arith)
      (record {
        same_entries = refl;
        same_capacity = refl;
        lines_of = sym (append-nil m.printed);
        freed = omega arith;
      })

-- A checkpoint commits what waits, in order, and frees what the entries held.
pub create_checkpoint-IsJournal :
    (now : ℕ) (m : RecoveryManager)
    → IsJournal m
    → (logged (create_checkpoint now m) ≡ logged m)
      × IsJournal (create_checkpoint now m)
      × ((create_checkpoint now m).journal_count ≡ 0)
      × ((create_checkpoint now m).journal_capacity ≡ m.journal_capacity)
unfolding create_checkpoint sum_range
create_checkpoint-IsJournal now m j = elim (Bool-cases (m.journal_count == 0)) [
  | inl empty ↦
      rw empty (refl, record { bounded = j.bounded; owned = j.owned }, ground (arith, empty), refl)
  | inr some_ ↦
      let c = loop_Committed m in
      rw some_ (
        append-nil _ ∙ c.lines_of,
        record { bounded = omega arith; owned = omega (arith, c.freed, j.owned) },
        refl,
        c.same_capacity,
      )
]

pub create_checkpoint-printed :
    (now : ℕ) (m : RecoveryManager) → IsJournal m → (create_checkpoint now m).printed ≡ logged m
create_checkpoint-printed now m j =
    let (same, _, empty, _) = create_checkpoint-IsJournal now m j in
    let committed : logged (create_checkpoint now m) ≡ (create_checkpoint now m).printed =
      rw empty (append-nil _) in
    sym committed ∙ same
