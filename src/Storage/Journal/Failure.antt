-- ===== src/Storage/Journal/Failure.antt =====
-- log_transaction when memory runs out.
use os_exploring.Common.{
  ℕ, ◌<◌, ◌≡◌, refl, ◌∙◌, ◌⊎◌, inl, inr, arith, leb, false, Option, none, some, [], ◌∷◌, ◌++◌,
}
use os_exploring.Storage.Journal.Lines.{logged, IsJournal, create_checkpoint-printed}
use os_exploring.Storage.Journal.Logging.{with_entry, with_entry-IsJournal}
use os_exploring.Storage.Journal.{
  JournalEntry, RecoveryManager, Request, commit_line, fill_entry, start_entry, write_entry,
  append_entry, create_checkpoint, log_transaction,
}

fill_entry-none :
    (old new : Option (ℕ → ℕ)) (r : Request) (e : JournalEntry)
    → ((old ≡ none) ⊎ (new ≡ none))
    → fill_entry old new r e ≡ none
unfolding fill_entry
fill_entry-none none new r e h = refl
fill_entry-none (some old) none r e h = refl
fill_entry-none (some old) (some new) r e (inl h) = cc
fill_entry-none (some old) (some new) r e (inr h) = cc

append_entry-none :
    (r : Request) (m : RecoveryManager)
    → ((r.old_memory ≡ none) ⊎ (r.new_memory ≡ none))
    → append_entry r m
      ≡ (none, with_entry (start_entry r m.journal_count (m.journal_entries m.journal_count)) m)
unfolding append_entry write_entry start_entry
append_entry-none r m h = rw (fill_entry-none r.old_memory r.new_memory r _ h) refl

-- With room for an entry, and no memory for one of the copies, log_transaction returns -1 and yet
-- keeps a half-written entry: the next checkpoint commits it, under the block's number and with the
-- size that its place in the array held before.
pub log_transaction-none :
    (now : ℕ) (r : Request) (m : RecoveryManager)
    → IsJournal m
    → m.journal_count < m.journal_capacity
    → ((r.old_memory ≡ none) ⊎ (r.new_memory ≡ none))
    → ((log_transaction r m).0 ≡ none)
      × ((create_checkpoint now (log_transaction r m).1).printed
          ≡ logged m
            ++ record {
              transaction = m.journal_count;
              block = r.block_num;
              bytes = (m.journal_entries m.journal_count).data_size;
            }
              ∷ [])
unfolding log_transaction start_entry commit_line
log_transaction-none now r m j room h =
    let free : leb m.journal_capacity m.journal_count ≡ false = ground arith in
    let e = start_entry r m.journal_count (m.journal_entries m.journal_count) in
    let (after, more) = with_entry-IsJournal e m j room in
    rw (free, append_entry-none r m h)
      (refl, create_checkpoint-printed now (with_entry e m) after ∙ more)
