-- ===== src/Storage/Journal/Logging.antt =====
-- log_transaction: nothing that is logged is lost.
use os_exploring.Common.{
  ℕ, suc, ◌+◌, ◌≤◌, ◌<◌, ◌≡◌, refl, sym, ap, ◌∙◌, inl, inr, true, Bool-cases, if◌then◌else◌, arith,
  some, List, [], ◌∷◌, ◌++◌, map, leb, update, update_ne, update_self, sum_range, sum_range-ext,
}
use mathlib.Core.List.{append-nil, append_assoc, map-append}
use os_exploring.Storage.Journal.Lines.{
  lines-ext, blocks, logged, IsJournal, create_checkpoint-IsJournal, create_checkpoint-printed,
}
use os_exploring.Storage.Journal.{
  JournalEntry, Commit, RecoveryManager, Request, commit_line, held, copy_bytes, fill_entry,
  start_entry, write_entry, append_entry, create_checkpoint, log_transaction, log_all,
  init_recovery_manager,
}

-- The manager after `e` is appended.
abbrev pub with_entry : JournalEntry → RecoveryManager → RecoveryManager
with_entry e m = record m {
  journal_entries = update m.journal_entries m.journal_count e;
  journal_count = m.journal_count + 1;
  live = m.live + blocks e;
}

pub with_entry-IsJournal :
    (e : JournalEntry) (m : RecoveryManager)
    → IsJournal m
    → m.journal_count < m.journal_capacity
    → IsJournal (with_entry e m) × (logged (with_entry e m) ≡ logged m ++ commit_line e ∷ [])
unfolding sum_range
with_entry-IsJournal e m j room =
    let n = m.journal_count in
    let next : n + 1 ≡ suc n = omega arith in
    let before =
      λ (i : ℕ) (l : i < n). update_ne m.journal_entries n i e (λ same. absurd (omega arith)) in
    let there : update m.journal_entries n e n ≡ e = update_self m.journal_entries n e in
    let old = lines-ext n (update m.journal_entries n e) m.journal_entries before in
    let counted =
      sum_range-ext n (λ i. blocks (update m.journal_entries n e i))
        (λ i. blocks (m.journal_entries i)) (λ i l. ap blocks (before i l)) in
    (
      record { bounded = omega arith; owned = rw (next, there) (omega (arith, counted, j.owned)) },
      rw (next, there, old, append_assoc) refl,
    )

-- The entry of a request whose calls of malloc have returned `old` and `new`.
abbrev pub full_entry : Request → ℕ → (ℕ → ℕ) → (ℕ → ℕ) → JournalEntry
full_entry r n old new = record {
  transaction_id = n;
  block_num = r.block_num;
  old_data = some (copy_bytes r.old_data r.size old);
  new_data = some (copy_bytes r.new_data r.size new);
  data_size = r.size;
}

pub append_entry-full :
    (r : Request) (m : RecoveryManager) (old new : ℕ → ℕ)
    → r.old_memory ≡ some old
    → r.new_memory ≡ some new
    → append_entry r m ≡ (some m.journal_count, with_entry (full_entry r m.journal_count old new) m)
unfolding append_entry fill_entry write_entry start_entry held
append_entry-full r m old new e f = rw (e, f) refl

-- Both calls of malloc of a request succeed.
abbrev pub IsGiven : Request → Type 0
IsGiven r =
    ((old : ℕ → ℕ) × (r.old_memory ≡ some old)) × ((new : ℕ → ℕ) × (r.new_memory ≡ some new))

abbrev pub AllGiven : List Request → Type 0
AllGiven [] = Unit
AllGiven (r ∷ rs) = IsGiven r × AllGiven rs

-- A block and the number of its bytes.
abbrev pub payload : Commit → ℕ × ℕ
payload c = (c.block, c.bytes)

abbrev pub request_payload : Request → ℕ × ℕ
request_payload r = (r.block_num, r.size)

-- A full journal is committed first, and then has room.
pub with_room : (now : ℕ) (m : RecoveryManager) → RecoveryManager
with_room now m = if leb m.journal_capacity m.journal_count then create_checkpoint now m else m

with_room_lem :
    (now : ℕ) (m : RecoveryManager)
    → IsJournal m
    → 0 < m.journal_capacity
    → IsJournal (with_room now m)
      × (logged (with_room now m) ≡ logged m)
      × ((with_room now m).journal_count < (with_room now m).journal_capacity)
      × ((with_room now m).journal_capacity ≡ m.journal_capacity)
unfolding with_room
with_room_lem now m j some_ = elim (Bool-cases (leb m.journal_capacity m.journal_count)) [
  | inl full ↦
      let (same, after, empty, capacity) = create_checkpoint-IsJournal now m j in
      rw full (after, same, omega (arith, empty, capacity), capacity)
  | inr room ↦ rw room (j, refl, ground (arith, room), refl)
]

log_transaction-IsJournal :
    (r : Request) (m : RecoveryManager)
    → IsGiven r
    → IsJournal m
    → 0 < m.journal_capacity
    → IsJournal (log_transaction r m).1
      × (map payload (logged (log_transaction r m).1)
          ≡ map payload (logged m) ++ request_payload r ∷ [])
      × ((log_transaction r m).1.journal_capacity ≡ m.journal_capacity)
unfolding log_transaction commit_line with_room
log_transaction-IsJournal r m ((old, e), (new, f)) j some_ =
    let (after, same, room, capacity) = with_room_lem r.now m j some_ in
    let w = with_room r.now m in
    let appended = append_entry-full r w old new e f in
    let (journal, more) =
      with_entry-IsJournal (full_entry r w.journal_count old new) w after room in
    rw appended (
      journal,
      ap (map payload) more
          ∙ map-append payload (logged w) (_ ∷ [])
          ∙ ap (λ l. map payload l ++ request_payload r ∷ []) same,
      capacity,
    )

log_all-IsJournal :
    (rs : List Request) (m : RecoveryManager)
    → AllGiven rs
    → IsJournal m
    → 0 < m.journal_capacity
    → IsJournal (log_all rs m)
      × (map payload (logged (log_all rs m)) ≡ map payload (logged m) ++ map request_payload rs)
unfolding log_all
log_all-IsJournal [] m given j some_ = (j, sym (append-nil _))
log_all-IsJournal (r ∷ rs) m (g, given) j some_ =
    let (next, one, capacity) = log_transaction-IsJournal r m g j some_ in
    let (last, all) =
      log_all-IsJournal rs (log_transaction r m).1 given next (omega (arith, capacity, some_)) in
    (
      last,
      all
          ∙ ap (λ l. l ++ map request_payload rs) one
          ∙ append_assoc (map payload (logged m)) (request_payload r ∷ []) (map request_payload rs),
    )

-- However many transactions are logged, and however often that fills the journal: its count stays
-- within its capacity, and after a last checkpoint exactly these transactions have been committed, in
-- the order in which they came, and every block of memory that they took is free again. The journal
-- has room for one entry at least, and the calls of malloc succeed.
pub log_all-create_checkpoint :
    (entries : ℕ → JournalEntry) (size interval start now : ℕ) (m : RecoveryManager)
    (rs : List Request)
    → init_recovery_manager true (some entries) start size interval ≡ some m
    → 0 < size
    → AllGiven rs
    → ((log_all rs m).journal_count ≤ (log_all rs m).journal_capacity)
      × (map payload (create_checkpoint now (log_all rs m)).printed ≡ map request_payload rs)
      × ((create_checkpoint now (log_all rs m)).live ≡ 0)
unfolding init_recovery_manager sum_range
log_all-create_checkpoint entries size interval start now m rs made some_ given =
    let fresh : m.journal_count ≡ 0 = cc in
    let nothing : m.printed ≡ [] = cc in
    let none_live : m.live ≡ 0 = cc in
    let room : m.journal_capacity ≡ size = cc in
    let j : IsJournal m = record { bounded = omega (arith, fresh); owned = rw fresh none_live } in
    let (last, all) = log_all-IsJournal rs m given j (omega (arith, room, some_)) in
    let (_, end_, empty, _) = create_checkpoint-IsJournal now (log_all rs m) last in
    let before : logged m ≡ [] = rw (fresh, nothing) refl in
    (
      last.bounded,
      ap (map payload) (create_checkpoint-printed now (log_all rs m) last)
          ∙ all
          ∙ ap (λ l. map payload l ++ map request_payload rs) before,
      rw empty at end_.owned,
    )
