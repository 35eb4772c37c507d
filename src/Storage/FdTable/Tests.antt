-- ===== src/Storage/FdTable/Tests.antt =====
-- The table of `main`, which takes the descriptor 200.
use os_exploring.Common.{
  ◌≡◌, refl, some, pos, negsuc, arith, count_range, find_range, count_range-none,
}
use os_exploring.Storage.FdTable.{FdTable, max_fd, no_fd, fd_table_add, fd_table_remove}
use os_exploring.Storage.FdTable.Slots.{
  IsCounted, Added, is_open, with_fd, fd_table_add-Added, fd_table_remove-fd_table_add,
}

abbrev no_files : FdTable
no_files = record { fd_arr = λ _. no_fd; count = pos 0 }

no_files-IsCounted : IsCounted no_files
no_files-IsCounted = record {
  counted =
      let none_open : count_range max_fd (is_open no_files) ≡ 0 =
        count_range-none max_fd (is_open no_files) (λ i l. refl) in
      rw none_open refl;
}

add_first : fd_table_add (some no_files) (pos 200) ≡ (pos 0, some (with_fd no_files 0 (pos 200)))
unfolding fd_table_add find_range
add_first = refl

-- `main` takes slot 200, where nothing is, in the place of slot 0.
remove_by_descriptor :
    fd_table_remove (some (with_fd no_files 0 (pos 200))) (pos 200)
    ≡ (no_fd, some (with_fd no_files 0 (pos 200)))
unfolding fd_table_remove
remove_by_descriptor = refl

-- The descriptor -1 is let through, and counted though its slot stays free.
minus_one_counted :
    fd_table_add (some no_files) (negsuc 0) ≡ (pos 0, some (with_fd no_files 0 (negsuc 0)))
unfolding fd_table_add find_range
minus_one_counted = refl

fd_table_add-Added_run : Added no_files (pos 200) (fd_table_add (some no_files) (pos 200))
fd_table_add-Added_run = fd_table_add-Added no_files (pos 200) (omega arith) no_files-IsCounted

fd_table_remove-fd_table_add_run :
    fd_table_remove (some (with_fd no_files 0 (pos 200))) (pos 0) ≡ (pos 200, some no_files)
fd_table_remove-fd_table_add_run =
    fd_table_remove-fd_table_add no_files (pos 200) 0 (some (with_fd no_files 0 (pos 200)))
      (omega arith) no_files-IsCounted add_first
