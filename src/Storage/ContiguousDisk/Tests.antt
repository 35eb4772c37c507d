-- ===== src/Storage/ContiguousDisk/Tests.antt =====
-- Runs on a disk of ten blocks.
use os_exploring.Common.{
  ℕ, ◌+◌, ◌≤◌, ◌≡◌, refl, none, some, arith, ◌==◌, count_range, if◌then◌else◌,
}
use os_exploring.Storage.ContiguousDisk.{ContiguousAllocator, find_run, allocate_contiguous}
use os_exploring.Storage.ContiguousDisk.Runs.{IsFree}
use os_exploring.Storage.ContiguousDisk.Allocate.{
  IsCounted, Takes, allocate_contiguous-Takes, allocate_contiguous-IsCounted,
  allocate_contiguous-none,
}

-- Blocks 2 and 6 are in use.
abbrev disk : ℕ → ℕ
disk k = if k == 2 then 1 else (if k == 6 then 1 else 0)

abbrev ten_blocks : ContiguousAllocator
ten_blocks = record { disk_blocks = disk; total_blocks = 10; free_blocks = 8 }

ten_blocks-IsCounted : IsCounted ten_blocks
unfolding count_range
ten_blocks-IsCounted = refl

first_run : (allocate_contiguous ten_blocks 3).0 ≡ some 3
unfolding allocate_contiguous find_run
first_run = refl

left_over : (allocate_contiguous ten_blocks 3).1.free_blocks ≡ 5
unfolding allocate_contiguous find_run
left_over = refl

no_run : (allocate_contiguous ten_blocks 4).0 ≡ none
unfolding allocate_contiguous find_run
no_run = refl

allocate_contiguous-Takes_example : Takes ten_blocks 3 3 (allocate_contiguous ten_blocks 3).1
allocate_contiguous-Takes_example =
    allocate_contiguous-Takes ten_blocks 3 3 (omega arith) ten_blocks-IsCounted first_run

allocate_contiguous-IsCounted_run : IsCounted (allocate_contiguous ten_blocks 3).1
allocate_contiguous-IsCounted_run =
    allocate_contiguous-IsCounted ten_blocks 3 (omega arith) ten_blocks-IsCounted

allocate_contiguous-none_run :
    ((allocate_contiguous ten_blocks 4).1 ≡ ten_blocks)
    × ¬ ((s : ℕ) × (s + 4 ≤ 10) × IsFree disk s 4)
allocate_contiguous-none_run = allocate_contiguous-none ten_blocks 4 (omega arith) no_run
