-- ===== src/Lib.antt =====
-- OS_Exploring: small C programs, each of which works out one mechanism of an operating system.
--
-- The programs share no code: each file of the repository is a program or a part of one, with its
-- own types. Five groups of them are modelled here.
--
-- Deadlock (d14_Deadlock_Detection_Algorithms_and_Banker’s_Algorithm):
--   Deadlock/Banker: Banker_algorithm.c. `BankerSystem` is the struct; `initialize_bankers`,
--     `cal_need`, `can_allocate_resources`, `is_safe` and `request_resources` are the functions of
--     the same names in camel case. `Scan` holds the locals of `isSafe`, `pass` is one round of its
--     `while` loop. Spec states what a safe sequence is, without the algorithm; Moves has what the
--     two loops of a request do, Books the balance of the resources, Demo the state that main sets
--     up.
--   Deadlock/SafetyAlgorithm: Safety_algorithm.c, the same test written on another struct, and its
--     agreement with the first.
--   Deadlock/ResourceGraph: Resource_Allocation_Graph.c, `detectDeadLock`, whose sums may overflow.
--   Deadlock/Recovery: recoverFromDeadlock.c, with the random priorities as an argument.
--   Deadlock/ResourceOrdering: ResourceOrderingSystem.c.
--   Deadlock/WaitForGraph: Wait-for_graph.c. `Stacks` is the two arrays that the calls of
--     `detectCycleDFS` share, `scan_edges` its loop, `leave` what follows it. Cycle says what a cycle
--     is, without the search; Scan has the loop and Search the recursion.
--
-- Memory:
--   Memory/Contiguous: d17_Contiguous_Memory_Allocation/Memory_Allocation_Algo.c and
--     Memory_Compaction.c. The linked list of blocks is a list; the three strategies, `allocMemory`
--     and `compactMemory` work on it.
--   Memory/Paging: d19_Paging_Mechanism/Paging_Mechanism.c, FIFO, LRU and optimal replacement. One
--     `…_step` is the body of the loop over the pages, and `…_loop` the loop.
--   Memory/Tlb: d16_Logical_vs_Physical_Address_Space/Translation_mechanism.c, the page table, the
--     TLB before it, and `translateAddress`.
--   Memory/Segmentation: d21_Memory_Segmentation/memory_segmentation.c, the segment table, the
--     translation (Translation) and the first-fit placement (Placement).
--   Memory/Heap: d15_Memory_Hierarchy/First_Fit_alloc.c, a heap in which every block has its header
--     before it. The list of blocks carries their addresses; Layout says when it tiles the heap.
--   Memory/Pool: d24_Dynamic_Memory_Management/Memory_Pool.c, a pool that keeps the list of its free
--     blocks inside them. `cells` is the memory, a function from addresses.
--   Memory/FixedBlocks and Memory/VariableBlocks: the two allocators of
--     d18_Memory_Allocation_Algorithms/Memory_Allocators.c.
--   Memory/CustomHeap: d23_Memory_Allocation_Internals/Custom_Memory_Allocator.c, with what sbrk
--     returns as an argument. `free_header` is custom_free from where it knows the header on.
--   Memory/AddressMap: d16_Logical_vs_Physical_Address_Space/AddressTranslator.c, the map of pages.
--   Memory/VirtualMemory: d15_Memory_Hierarchy/Virtual_Memory.c, frames given on page faults, at virtual
--     addresses of either sign.
--   Memory/Cache: d15_Memory_Hierarchy/Cache_Memory_Management.c.
--
-- Concurrency:
--   Concurrency/BoundedBuffer: d12_Mutex_and_Semaphores/consumer_producer.c. Each thread is at a
--     point of its loop, a step is one call of `sem_wait`, `sem_post` or of the mutex or the access to
--     the buffer between them, and any thread may take the next step.
--   Concurrency/ThreadPool: d10_Multithreading_Models/single_thread_pool.c, the ring of waiting tasks; the
--     undefined MASK_QUEUE_SIZE is an argument.
--   Concurrency/Philosophers: d13_Deadlock_Concepts_and_Prevention/demo_deadlock.c. A step is one call
--     of a mutex; Forks has the order of the forks, Safety what holds at every table.
--   Concurrency/Race: d11_Concurrency_Fundamentals/demo_race_condition.c. The increment is a load and a
--     store; Unlocked is about the threads without the mutex, Locked and Outcome about those with it.
--   Concurrency/Workers: d9_Thread_vs_Process_Comparison/working_template.c, the threads that double the
--     items of an array, each in its slice.
--
-- Storage (d25_File_System_Basics, d27_File_Allocation_Methods):
--   Storage/ContiguousDisk: contiguous_allocation.c. `find_run` is the search loop of
--     `allocate_contiguous`, `mark_run` the loop that marks the blocks found.
--   Storage/ExtentDisk: extent_based_allocation.c, which has the same search, and Agreement with the
--     contiguous allocation.
--   Storage/LinkedDisk: linked_allocations.c, the stack of free blocks and the chains.
--   Storage/Fragmentation: fragmentation_management.c. `sort_regions` and `merge_regions` are the two
--     loops of `defragment`.
--   Storage/DynamicDisk: dynamic_block_allocation.c, two stacks of free blocks.
--   Storage/FdTable: file_descriptor_management.c.
--   Storage/BufferedFile: buffering_system.c. `System` is the calls of read and write, an argument;
--     Reading says what read promises of a regular file. `read_round` and `write_round` are the bodies
--     of the two loops.
--   Storage/Journal: recovery.c. `printed` is what the checkpoints print, `live` the blocks of memory
--     that the entries hold.
--   Storage/MultiLevel: multi_level_index_allocation.c. `single_address`, `double_address` and
--     `triple_address` are the ranges of `get_block_address` after the direct one.
--   Storage/Prefetch: performance_optimization.c. `Heat` is what the doubles of the heat map do, an
--     argument; Queue has the queue, Predict the predictions, Hot the hottest block, and Access one
--     access.
--   Storage/BlockSizes: block_size_optimization.c.
--
-- Scheduling (d4_Process_Scheduling_Basics, d5_Advanced_Scheduling_Algorithms_in_OS):
--   Scheduling/Priority: priority_scheduling.c. `find_highest_priority` is the inner loop, `execute`
--     the tick of the process found, `priority_step` the body of the `while` loop.
--   Scheduling/ShortestJob: sjf_scheduling.c, with the same parts.
--   Scheduling/RoundRobin: round_robin_scheduling.c. `take_turn` is the body of the `for` loop,
--     `all_turns` that of the `while` loop.
--   Scheduling/Fcfs: fcfs_scheduling.c.
--   Selection has the scan for the least key, which Deadlock/Recovery makes too, and Progress the
--     time left to run.
--
-- Common has the shared types, the Boolean tests, ℤ over the native ℕ, the loops (`for_range`,
-- `all_range`, `find_range`, `count_range`) with their rules, and arrays as functions of the index.
--
-- Numbers. Counters, sizes and indices that are never negative are ℕ; what the banker counts and the
-- page numbers are ℤ. But in ResourceGraph, where the
-- overflow of a sum ends the run, an `int` has no bound here, since its overflow is undefined in C; the unsigned
-- clocks and addresses of the translations wrap at 2 ^ 32, the sizes of the pool and of the allocators
-- at 2 ^ 64 where the source lets them.
--
-- Memory. A pointer to a struct is the struct as a value, passed in and returned; -1 or NULL as a
-- result is `none`, but where the source uses the number (an address 0, an unsigned -1) it is kept.
-- Whether malloc succeeds is an argument, and so is what it leaves in the memory it hands out.
--
-- Fuel. `is_safe` runs on one round more than there are processes, since each round but the last
-- completes one. `detect_deadlock` takes the fuel as an argument, since the loop of the source need
-- not end. `detect_dead_lock` has one level of calls more than there are processes, since each call
-- that goes deeper visits a new one.
-- Priority and ShortestJob take the fuel too: a process without work is never completed, and
-- they would wait for it for ever. For the workloads that they can finish, one round for each tick of
-- work and for each tick before the last arrival, and one more, is enough, since each
-- round lowers their sum.
-- `allocate_segment` has one round for each start in the memory.
-- `buffer_read` has one round for each byte, since a round copies one at least; `buffer_write` takes its
-- fuel as an argument, since it need not return.
-- Every other loop is a recursion on a count or a list.
--
-- Not modelled: printing and scanning; the programs that only call the operating system or pthreads
-- (d1, d3, d7, d8, most of d9 and d10, the file operations of d25) or that only measure (d6, part of
-- d15); the serial port; the log of debug_malloc; files that hold little besides a struct and its start
-- (d2, d22, Segmentations.c, Memory_Protection.c, indexed_allocation.c, hybrid_allocation.c); and the
-- directories of d26, some of whose functions no file of the repository defines.
pub mod Common
pub mod Concurrency
pub mod Deadlock
pub mod Memory
pub mod Scheduling
pub mod Storage
