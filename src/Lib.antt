-- ===== src/Lib.antt =====
-- bongOS: the parts of the boot loaders and of the kernel that are pure functions of their
-- arguments, called by the firmware and hardware code around them.
--
-- How the parts interact. Before the kernel runs, a loader reads boot.cfg
-- (boot/common/bootcfg.c), lets the user pick an entry (boot/common/bootmenu.c, which takes the
-- entry count, the default index and the timeout from the parsed file) and turns the firmware's
-- memory map into the regions that the kernel is given (boot/common/memmap.c). The BIOS loader
-- allocates its own memory from those regions (boot/common/bootheap.c). In the kernel, the
-- address space for mappings comes from kernel/mm/kva.c, interrupt vectors and routes from
-- kernel/arch/x86_64/irq-core.c, clock conversion and the calendar from kernel/core/time-
-- core.c, the queue of timers from the heap of that file (kernel/core/timekeeping.c arms and
-- cancels them and collects the due ones), and the selection of tests by name from
-- kernel/core/cmdline.c. The locks are watched by kernel/sync/lockdep-core.c, and the objects
-- of a slab are laid out and handed out by kernel/mm/slab-core.c. Frames come from the bump
-- allocator of kernel/mm/early.c until its seal, and from the buddy allocator of
-- kernel/mm/buddy.c afterwards.
--
-- The files:
-- - Common: numbers of 32 and 64 bits with their wrap, arrays as lists, bits of a word, Boolean
--   tests on numbers.
-- - MemMap, for boot/common/memmap.c: efi_type_to_boot_mem and e820_type_to_boot_mem
--   (memMapEfiTypeToBootMem, memMapE820TypeToBootMem), round_input, rank, points (the three
--   loops that fill, sort and thin out the scratch points), sweep with best and push_region
--   (the last loop), normalize (memMapNormalize) and check_overlay (memMapCheckOverlay).
--   Points, Sweep, Regions and Result follow the data through these stages; Total and Overlay
--   stand by themselves.
-- - BootHeap, for boot/common/bootheap.c: init_from (bootHeapInit) and alloc_pages
--   (bootHeapAllocPages). Its Init takes the sorted map of MemMap.Result.
-- - BootMenu, for boot/common/bootmenu.c: a state and the functions key and tick (bootMenuKey,
--   bootMenuTick) that return the next state and the action; Reach has the states that keys and
--   seconds reach, Countdown the timing.
-- - BootCfg, for boot/common/bootcfg.c: the scanning functions in BootCfg, the state of
--   bootCfgParse and its keys, lines and final checks in BootCfg.Parse, a function for each arm
--   of the source's chain; bootCfgResolveEntry in BootCfg.Resolve.
-- - Kva, for kernel/mm/kva.c: the sorted table of free extents, alloc (kvaAlloc) and free
--   (kvaFree); Order has the table's invariant and the set of free addresses.
-- - Irq, for kernel/arch/x86_64/irq-core.c: Vectors (the allocation bitmap), Routes (ISA
--   interrupts through the MADT overrides), Ranges (redirection entries and GSI ranges).
-- - Time, for kernel/core/time-core.c: Scale (ticks to nanoseconds), Calendar (civil time to
--   the epoch), Rtc (the CMOS registers), Order (the epochs of two readings against the order
--   of their dates), and Timers, the timer heap: heap_init, heap_insert, heap_remove,
--   heap_peek, heap_pop and heap_check (timerHeapInit and so on) over slots that hold addresses
--   and the memory that holds the timers. A loop of siftUp or siftDown keeps a hole: Hole has
--   what the slots around it hold, Sift and Moves the order, Loops the loops, Place, Remove and
--   Heap the operations.
-- - Cmdline, for kernel/core/cmdline.c: has_token and find_ktest (cmdlineHasToken,
--   cmdlineFindKtest), which Tokens compares with the list of the line's words, and the
--   wildcard matcher, one turn of its loop as glob_turn; Glob and GlobComplete compare it with
--   the meaning of a pattern, GlobTotal bounds its turns.
-- - Lockdep, for kernel/sync/lockdep-core.c: class_of, has_edge, edge_find and depends_on
--   (lockdepCoreClassOf and so on) and the breadth-first search bfs_find (bfsFind), with Scan
--   and Search on what it finds; Lockdep.Acquire has check_acquire, commit_acquire,
--   check_release and commit_release over the graph and the stack of held locks, Acyclic the
--   graphs that a validator makes, Findings the reports, Release the stack.
-- - Slab, for kernel/mm/slab-core.c: class_index_for_size, compute_layout, index_for_offset,
--   carve, free_list_pop and free_list_push (slabClassIndexForSize and so on); Layout, Classes
--   and FreeList follow them, Refine compares the free list with a stack.
-- - Early, for kernel/mm/early.c: early_init, early_alloc_pages, seal and was_allocated
--   (pmmEarlyInit, pmmEarlyAllocPages, pmmEarlySeal, pmmEarlyWasAllocated).
-- - Buddy, for kernel/mm/buddy.c: zone_init, free_block and alloc_block (buddyZoneInit,
--   buddyFreeBlock, buddyAllocBlock) over the Page array and the free lists; Links has what one
--   block changes in the set of free frames, Halves the arithmetic of buddies.
-- - Timekeeping, for kernel/core/timekeeping.c: timer_arm, timer_cancel and reprogram
--   (timerArm, timerCancel, reprogram) over the heap of Time.Timers, and expire, the first loop
--   of timeTimerIrq; Expiry, Arm and Cancel have what they leave.
--
-- Conventions. A number is a natural number with the wrap of its C type written out where the
-- code relies on it. A pointer into a string is the list of the bytes from there on; an output
-- array is a list, its capacity a number. A status and its outputs are an Option or a result
-- type. Null-pointer guards have no counterpart, but for those of timerArm and timerCancel.
--
-- Bounds and fuel. The wildcard matcher runs on (name length + 2) * (pattern length + name
-- length + 3) turns, the token scans on one turn more than the line has bytes, the breadth-
-- first search on 257 turns, one more than there are classes, siftUp from index i on i + 1
-- turns and siftDown on one more than the heap has timers, the collection of due timers on one
-- more than there are; the theorems on these functions show that this is enough. Every other
-- loop is a recursion on a list or on a bound that the source states (table sizes, 16 ISA
-- lines, the vectors 48 to 239).
--
-- Not modelled: the formatter and the readers of ELF, GPT, FAT and ACPI data. The stack traces
-- of the lock validator are data that its core never reads, and a timer's callback is an
-- address that timerArm tests and only the interrupt handler calls. The code around the cores
-- (locks, page tables, ports, firmware calls, drawing) reads and writes hardware and is left
-- out, as are the cryptographic and compression libraries.
pub mod Common
pub mod Kva
pub mod Irq
pub mod Time
pub mod Timekeeping
pub mod MemMap
pub mod BootMenu
pub mod BootHeap
pub mod Cmdline
pub mod BootCfg
pub mod Lockdep
pub mod Slab
pub mod Buddy
pub mod Early
