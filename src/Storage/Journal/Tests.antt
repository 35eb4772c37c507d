-- ===== src/Storage/Journal/Tests.antt =====
-- A journal of two entries, and three transactions.
use os_exploring.Common.{
  ℕ, ◌+◌, ◌≤◌, ◌≡◌, refl, inl, true, arith, Option, none, some, List, [], ◌∷◌, ◌++◌, map, sum_range,
}
use os_exploring.Storage.Journal.Lines.{IsJournal}
use os_exploring.Storage.Journal.Logging.{
  payload, request_payload, log_all-create_checkpoint, AllGiven,
}
use os_exploring.Storage.Journal.Failure.{log_transaction-none}
use os_exploring.Storage.Journal.{
  JournalEntry, RecoveryManager, Request, init_recovery_manager, log_transaction, log_all,
  create_checkpoint, append_entry, write_entry, fill_entry, start_entry, held,
}

abbrev unwritten : ℕ → JournalEntry
unwritten i = record {
  transaction_id = 0;
  block_num = 0;
  old_data = none;
  new_data = none;
  data_size = 77;
}

abbrev journal : ℕ → RecoveryManager
journal size = record {
  journal_entries = unwritten;
  journal_capacity = size;
  journal_count = 0;
  checkpoint_interval = 5;
  last_checkpoint = 0;
  printed = [];
  live = 0;
}

journal_made : init_recovery_manager true (some unwritten) 0 2 5 ≡ some (journal 2)
unfolding init_recovery_manager
journal_made = refl

abbrev write_of : ℕ → Option (ℕ → ℕ) → Request
write_of block memory = record {
  block_num = block;
  old_data = λ i. i;
  new_data = λ i. i + 1;
  size = 6;
  now = block;
  old_memory = memory;
  new_memory = memory;
}

abbrev three_writes : List Request
three_writes =
    write_of 4 (some (λ _. 0)) ∷ write_of 9 (some (λ _. 0)) ∷ write_of 1 (some (λ _. 0)) ∷ []

three_writes-AllGiven : AllGiven three_writes
three_writes-AllGiven =
    (((_, refl), (_, refl)), (((_, refl), (_, refl)), (((_, refl), (_, refl)), tt)))

log_all-create_checkpoint_example :
    ((log_all three_writes (journal 2)).journal_count
      ≤ (log_all three_writes (journal 2)).journal_capacity)
    × (map payload (create_checkpoint 9 (log_all three_writes (journal 2))).printed
        ≡ map request_payload three_writes)
    × ((create_checkpoint 9 (log_all three_writes (journal 2))).live ≡ 0)
log_all-create_checkpoint_example =
    log_all-create_checkpoint unwritten 2 5 0 9 (journal 2) three_writes journal_made (omega arith)
      three_writes-AllGiven

journal-IsJournal : IsJournal (journal 2)
unfolding sum_range
journal-IsJournal = record { bounded = omega arith; owned = refl }

log_transaction-none_example :
    ((log_transaction (write_of 8 none) (journal 2)).0 ≡ none)
    × ((create_checkpoint 9 (log_transaction (write_of 8 none) (journal 2)).1).printed
        ≡ [] ++ record { transaction = 0; block = 8; bytes = 77 } ∷ [])
log_transaction-none_example =
    log_transaction-none 9 (write_of 8 none) (journal 2) journal-IsJournal (omega arith) (inl refl)

-- With no room at all an entry is written behind the end of the array.
no_room : (log_transaction (write_of 3 (some (λ _. 0))) (journal 0)).1.journal_count ≡ 1
unfolding log_transaction append_entry write_entry fill_entry start_entry held create_checkpoint
no_room = refl
