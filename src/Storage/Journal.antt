-- ===== src/Storage/Journal.antt =====
-- recovery.c: a journal of block writes, and the checkpoints that commit it.
-- What time and malloc return is an argument. `printed` is the lines that a checkpoint prints, and
-- `live` counts the blocks of malloc that the entries hold.
mod Lines
pub mod Logging
pub mod Failure
mod Tests
use os_exploring.Common.{
  ℕ, ◌+◌, ◌-◌, Bool, Option, none, some, List, [], ◌∷◌, ◌++◌, ◌==◌, leb, if◌then◌else◌, update,
  for_range, write_range,
}

-- `none` is a null pointer.
pub record JournalEntry : Type 0 where
  pub transaction_id : ℕ
  pub block_num : ℕ
  pub old_data : Option (ℕ → ℕ)
  pub new_data : Option (ℕ → ℕ)
  pub data_size : ℕ

-- The line of a committed transaction.
pub record Commit : Type 0 where
  pub transaction : ℕ
  pub block : ℕ
  pub bytes : ℕ

pub record RecoveryManager : Type 0 where
  pub journal_entries : ℕ → JournalEntry
  pub journal_capacity : ℕ
  pub journal_count : ℕ
  pub checkpoint_interval : ℕ
  pub last_checkpoint : ℕ
  pub printed : List Commit
  pub live : ℕ

-- `some` is the array that malloc has given.
unfoldable pub init_recovery_manager :
    Bool → Option (ℕ → JournalEntry) → ℕ → ℕ → ℕ → Option RecoveryManager
init_recovery_manager got_manager none now journal_size checkpoint_interval = none
init_recovery_manager got_manager (some entries) now journal_size checkpoint_interval =
    if got_manager
    then some (record {
      journal_entries = entries;
      journal_capacity = journal_size;
      journal_count = 0;
      checkpoint_interval = checkpoint_interval;
      last_checkpoint = now;
      printed = [];
      live = 0;
    })
    else none

unfoldable pub commit_line : JournalEntry → Commit
commit_line e = record { transaction = e.transaction_id; block = e.block_num; bytes = e.data_size }

-- free of a pointer of an entry: nothing for a null pointer.
unfoldable pub held : Option (ℕ → ℕ) → ℕ
held none = 0
held (some block) = 1

unfoldable pub free_entry : JournalEntry → RecoveryManager → RecoveryManager
free_entry e m = record m { live = m.live - (held e.old_data + held e.new_data) }

-- A round of the loop of create_checkpoint.
unfoldable pub commit_entry : ℕ → RecoveryManager → RecoveryManager
commit_entry i m =
    free_entry (m.journal_entries i)
      (record m { printed = m.printed ++ commit_line (m.journal_entries i) ∷ [] })

unfoldable pub create_checkpoint : ℕ → RecoveryManager → RecoveryManager
create_checkpoint now m =
    if m.journal_count == 0
    then record m { last_checkpoint = now }
    else record (for_range m.journal_count 0 commit_entry m) {
      journal_count = 0;
      last_checkpoint = now;
    }

-- A call of log_transaction, with the time and what its two calls of malloc return.
pub record Request : Type 0 where
  pub block_num : ℕ
  pub old_data : ℕ → ℕ
  pub new_data : ℕ → ℕ
  pub size : ℕ
  pub now : ℕ
  pub old_memory : Option (ℕ → ℕ)
  pub new_memory : Option (ℕ → ℕ)

-- memcpy into what malloc has given.
unfoldable pub copy_bytes : (ℕ → ℕ) → ℕ → (ℕ → ℕ) → ℕ → ℕ
copy_bytes from size memory = write_range (λ i _. from i) size 0 memory

-- The two copies, if both calls of malloc have succeeded; the size of an entry is set last.
unfoldable pub fill_entry :
    Option (ℕ → ℕ) → Option (ℕ → ℕ) → Request → JournalEntry → Option JournalEntry
fill_entry none new r e = none
fill_entry (some old) none r e = none
fill_entry (some old) (some new) r e = some (record e {
  old_data = some (copy_bytes r.old_data r.size old);
  new_data = some (copy_bytes r.new_data r.size new);
  data_size = r.size;
})

-- The entry that the next transaction gets: what malloc returned, and the size of an earlier one.
unfoldable pub start_entry : Request → ℕ → JournalEntry → JournalEntry
start_entry r idx e = record e {
  transaction_id = idx;
  block_num = r.block_num;
  old_data = r.old_memory;
  new_data = r.new_memory;
}

-- `journal_entries[entry_idx]` once it is written to, whatever the capacity is.
unfoldable pub write_entry :
    Option JournalEntry → JournalEntry → RecoveryManager → Option ℕ × RecoveryManager
write_entry none started m = (
  none,
  record m {
    journal_entries = update m.journal_entries m.journal_count started;
    journal_count = m.journal_count + 1;
  },
)
write_entry (some e) started m = (
  some m.journal_count,
  record m {
    journal_entries = update m.journal_entries m.journal_count e;
    journal_count = m.journal_count + 1;
  },
)

unfoldable pub append_entry : Request → RecoveryManager → Option ℕ × RecoveryManager
append_entry r m =
    let started = start_entry r m.journal_count (m.journal_entries m.journal_count) in
    write_entry (fill_entry r.old_memory r.new_memory r started) started
      (record m { live = m.live + (held r.old_memory + held r.new_memory) })

unfoldable pub log_transaction : Request → RecoveryManager → Option ℕ × RecoveryManager
log_transaction r m =
    append_entry r (if leb m.journal_capacity m.journal_count then create_checkpoint r.now m else m)

unfoldable pub log_all : List Request → RecoveryManager → RecoveryManager
log_all [] m = m
log_all (r ∷ rs) m = log_all rs (log_transaction r m).1

-- What the two loops of free leave allocated of the entries' blocks.
unfoldable pub destroy_recovery_manager : RecoveryManager → ℕ
destroy_recovery_manager m =
    (for_range m.journal_count 0 (λ i d. free_entry (d.journal_entries i) d) m).live
