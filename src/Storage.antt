-- ===== src/Storage.antt =====
-- d25_File_System_Basics and d27_File_Allocation_Methods: open files, and how files are given blocks of a disk.
pub mod ContiguousDisk
pub mod ExtentDisk
pub mod LinkedDisk
pub mod FdTable
pub mod Fragmentation
pub mod DynamicDisk
pub mod BufferedFile
pub mod Journal
pub mod MultiLevel
pub mod Prefetch
pub mod BlockSizes
