-- ===== src/Storage/FdTable.antt =====
-- d25_File_System_Basics/file_descriptor_management.c: the table of open file descriptors.
-- An index or a descriptor may be negative; a table that is NULL is `none`.
pub mod Slots
mod Tests
use os_exploring.Common.{
  ℕ, ◌+◌, Bool, true, false, not, Option, none, some, ℤ, pos, negsuc, ◌+ℤ◌, ◌-ℤ◌, leb_ℤ, eqb_ℤ, ltb,
  if◌then◌else◌, update, find_range,
}

abbrev pub max_fd : ℕ
max_fd = 1024

-- -1, the mark of a free slot and the result of a failure.
abbrev pub no_fd : ℤ
no_fd = negsuc 0

pub record FdTable : Type 0 where
  pub fd_arr : ℕ → ℤ
  pub count : ℤ

-- Whether malloc has room is the argument.
unfoldable pub fd_table_create : Bool → Option FdTable
fd_table_create true = some (record { fd_arr = λ _. no_fd; count = pos 0 })
fd_table_create false = none

-- The slot that the loop finds takes the descriptor.
abbrev pub put_fd : FdTable → ℤ → Option ℕ → ℤ × Option FdTable
put_fd t fd none = (no_fd, some t)
put_fd t fd (some i) =
    (pos i, some (record { fd_arr = update t.fd_arr i fd; count = t.count +ℤ pos 1 }))

unfoldable pub fd_table_add : Option FdTable → ℤ → ℤ × Option FdTable
unfolding find_range
fd_table_add none fd = (no_fd, none)
fd_table_add (some t) fd =
    let found = put_fd t fd (find_range max_fd 0 (λ i. eqb_ℤ (t.fd_arr i) no_fd)) in
    if leb_ℤ (pos max_fd) fd then (no_fd, some t) else found

-- The descriptor in a slot below max_fd is taken out.
unfoldable pub take_fd : FdTable → ℕ → ℤ × Option FdTable
take_fd t idx = if eqb_ℤ (t.fd_arr idx) no_fd then (no_fd, some t) else (
  t.fd_arr idx,
  some (record { fd_arr = update t.fd_arr idx no_fd; count = t.count -ℤ pos 1 }),
)

unfoldable pub fd_table_remove : Option FdTable → ℤ → ℤ × Option FdTable
unfolding take_fd
fd_table_remove none idx = (no_fd, none)
fd_table_remove (some t) (negsuc k) = (no_fd, some t)
fd_table_remove (some t) (pos idx) = if ltb idx max_fd then take_fd t idx else (no_fd, some t)
