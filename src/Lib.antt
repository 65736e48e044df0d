-- ===== src/Lib.antt =====
-- The kernel of zonix-plus: its data structures, its physical page allocator and page tables, its scheduler and its
-- locks, its descriptor tables and its mount table, its swap slots, its FAT32 driver, its shell and its
-- formatted output, with the theorems that make them correct.
--
-- How the parts interact. The free list of the page allocator and the scheduler's task list are
-- intrusive circular lists (kernel/lib/list.h). The boot code turns the firmware's memory map into page
-- runs and hands them to the allocator (kernel/mm/pmm.cpp, kernel/mm/pmm_firstfit.cpp). The scheduler
-- (kernel/sched) walks the task list from a cursor; a task that waits for a lock (kernel/sync) hangs on
-- the lock's wait queue until it is woken. The mount table (kernel/fs/vfs.cpp) hands a path to the file
-- system of its slot, and counts who uses it; the FAT32 driver is one of them, on a device of the block
-- registry (kernel/block). The ELF loader (kernel/exec) checks a program before it is loaded. A task that
-- exits gives its children to init, and its parent waits for it (kernel/sched/process.cpp). The shell
-- (kernel/cons/shell.cpp) turns typed characters into calls of commands. A task owns a descriptor table
-- (kernel/fs/fd.cpp). Pages that are swapped out are named by slots of a swap device (kernel/mm/swap.cpp). The FAT32 driver
-- (kernel/fs/fat) keeps a one-sector cache of the allocation table of a block device.
--
-- Files.
--   Base (Base/Tests, Lists, Errors, Nodes, Sums, Splits, Texts): Boolean tests over the native
--     numbers, lists, kernel/lib/result.h, lists of node names, sums, lists cut at an element, and
--     the texts of kernel/lib/string.h; names are passed on by Base.
--   Rounding: round_down and round_up of kernel/lib/math.h.
--   Ring: struct ListNode of kernel/lib/list.h. The links of all nodes are two functions, `prev` and
--     `next`, from a node's name to a node's name. Ring/Segment and Ring/Insert, Unlink, Walk prove
--     that the operations act on such links as on a list.
--   Pmm: PageAllocator of kernel/mm/pmm_firstfit.cpp and struct Page of kernel/mm/pmm.h. A page is
--     its index in the array of descriptors; the free list is the list of run heads. Pmm/Runs defines
--     how often a page is free and when a state is sound; Pmm/Boot adds normalize_available_range of
--     kernel/mm/pmm.cpp, Pmm/Heap its kmalloc and kfree; Pmm/Alloc, Coalesce and Free hold the proofs.
--   Paging: the page tables of kernel/mm/pmm.cpp (get_pte, user_address, page_insert,
--     alloc_and_map_page). A table is named by its physical address; its pages come from the allocator
--     of Pmm. The format of an entry is a record of functions; Paging/Riscv, X86 and Aarch64 (with
--     Shifts) are those of arch/riscv64, arch/x86 and arch/aarch64 (include/asm/page.h), and
--     Paging/Formats states what the walk relies on, for each of which a child shows that it holds.
--     Paging/Trees: the tables that a walk reaches; Paging/Link and Fresh: one step of get_pte, with an
--     empty table or the parts of a block; Paging/Descend: get_pte; Paging/Enter, Outcomes and Insert:
--     page_insert.
--   Blk: BlockManager of kernel/block/blk.cpp. Blk/Registry: what a registration does to the registry.
--   Fat: the boot sector of include/base/bpb.h, FatInfo::mount, do_init_state and the address
--     computations of kernel/fs/fat/fat_core.cpp. Fat/Table: read_entry and write_entry with the
--     sector cache, over any block device. Fat/Chain: ClusterChain::next and free_chain; Chain/Bound
--     and Chain/Walk: its calls and the loop over it. Fat/Names: the parts of a path and the names of
--     entries (kernel/fs/fat/fat_dir.cpp); Names/Paths: how a path is cut; Names/Short: 8.3 names.
--     Fat/Dir: the entries of a directory, find_entry and remove_dir_entry (kernel/fs/fat/fat_dir.cpp).
--     Dir/Sectors, Steps and Walk: their walk over the sectors of the chain; Dir/Entries and Lookup:
--     find_entry; Dir/Remove: remove_dir_entry; Dir/Ends: that the walks end. Fat/Calls: find_file,
--     resolve_parent and unlink; Calls/Paths: find_file.
--   Sched: SchedulerPolicy of kernel/sched/sched_priority_rr.cpp, Scheduler of kernel/sched/sched.cpp
--     and the task states of kernel/sched/task.cpp. A task is named by its list node, the task list
--     is a ring of Ring. Sched/Slice: time slices and ticks; Sched/Pick: the choice of pick_next;
--     Sched/Turn and Fair: how its cursor goes around; Sched/Switch: what schedule leaves behind.
--   Procs: the task table of kernel/sched/task_table.cpp, exit and wait of kernel/sched/process.cpp. A
--     task is a number; its child list is a list. Procs/Lookup: find_process; Procs/Adopt, Children
--     and Exit: what exit does to the family of a task; Procs/Reaped and Wait: what wait answers and
--     takes out of the lists.
--   Sync: WaitQueue, Mutex and Semaphore of kernel/sync. Sync/Mutexes and Sync/Semaphores: tasks that
--     share one, as a step relation, and its invariant.
--   Vfs: the mount table of kernel/fs/vfs.cpp, over any file systems. Vfs/System: its calls as a step
--     relation, one step for each section under an interrupt guard; Vfs/Slots and Users: who holds a
--     mount; Vfs/Calls: a call on a path as a whole, with others in between.
--   Files: fd::Table of kernel/fs/fd.cpp, over any type of files, with the list of the files that were
--     closed. Files/Open: alloc; Files/Close: close and close_all.
--   Swap: the slots of class State of kernel/mm/swap.cpp. Swap/Slots: handing out slots;
--     Swap/Entries: the page-table entries that name them.
--   Vmm: user_range_valid of kernel/mm/vmm.cpp, over any page tables. Vmm/Range: what it answers.
--   Elf: validate of kernel/exec/elf_loader.cpp on the bytes of a file, over any layout of the address
--     space. Elf/Segments and Table: its loop; Elf/Validate: the whole.
--   Stdio: cprintf and vsnprintf of kernel/cons/stdio.cpp over any sink. Stdio/Digits: the digits of a
--     number; Stdio/Sinks and Buffers: what a bounded buffer holds of the text.
--   Shell: kernel/cons/shell.cpp: Shell/Words, the parser; Shell/Commands, the table of commands;
--     Shell/Editing, the line editor.
--
-- Conventions. Integers are natural numbers, wrapped at the source's width wherever the source can
-- wrap. Error codes are the type Error of kernel/lib/result.h, TRY and ENSURE are the chain operators
-- of Base/Errors. Loops are structural recursion on the count of rounds that are left; the walks of a
-- circular list and the loops over a cluster chain, over the parts of a path and over the children of a
-- task take fuel, and the theorems on them name how much is enough: at most one round for each node,
-- cluster of the volume, character or child, and one more. The block
-- device is a parameter, of which IsDisk (Fat/Table/Coherence) states that a call that succeeds reads
-- or writes the block that it names and no other. In Vmm, where a user may access is a parameter, of
-- which IsPaged (Vmm/Range) states that the addresses of a page are open alike. The page tables of Paging
-- are the entries of all tables; IsTree (Paging/Trees) says that no table is reached in two ways and no
-- free page holds one.
--
-- Not modelled. Interrupts (a section under an interrupt guard or a spinlock is one step, and calls are
-- interleaved in Sync and Vfs only), log output, the TLB, the drivers of the architectures, the user
-- programs, the boot loaders, and the parts that the manifest lists with their reasons.
pub mod Base
pub mod Rounding
pub mod Ring
pub mod Pmm
pub mod Blk
pub mod Fat
pub mod Sched
pub mod Procs
pub mod Sync
pub mod Files
pub mod Vfs
pub mod Swap
pub mod Paging
pub mod Vmm
pub mod Elf
pub mod Stdio
pub mod Shell
