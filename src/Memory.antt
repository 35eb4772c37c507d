-- ===== src/Memory.antt =====
-- Memory management: the allocators, paging and segmentation.
pub mod Contiguous
pub mod Paging
pub mod Tlb
pub mod Segmentation
pub mod Pool
pub mod FixedBlocks
pub mod VariableBlocks
pub mod CustomHeap
pub mod VirtualMemory
pub mod Cache
pub mod AddressMap
pub mod Heap
