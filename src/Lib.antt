-- ===== src/Lib.antt =====
-- A model of the core of the Manrix microkernel (microkernel/), and of parts of its servers (servers/)
-- and its C library (soft/libc/).
--
-- The kernel keeps its threads on 32 run queues, which are intrusive linked lists, with a bitmap of
-- the queues that are not empty. System calls find threads by their tid in a hash table. A thread
-- sends a message to another and sleeps until it is answered: the sender joins the receiver's list
-- of senders, and sending, receiving and replying block and wake threads through the scheduler.
-- Tids, pids and timer ids come out of bitmaps. The servers are programs that answer messages: the file
-- server keeps blocks of the disks, and the console server reads keys into lines.
--
-- Files and the code that they model:
--   Base, Base/*    shared helpers: Boolean tests, lists by index, integers over the native numbers
--   Bits            the bit macros of microkernel/include/i386/asm/asm.h, on 32-bit words; Bits/Laws
--   IdMap           microkernel/kernel/id.c: IdMap is a bitmap with its hint; alloc_id, dealloc_id
--                   and the six functions on top of them. IdMap/Laws has the invariant, IdMap/Alloc and
--                   IdMap/Users the properties
--   DList           microkernel/include/kernel/list.h: the macros on a store of links. DList/Chain and
--                   DList/Ring relate the store to a list of items, DList/Queue to a queue
--   Kernel          struct thread, struct message and struct rqueue, from thread.h, message.h and
--                   scheduling.h in microkernel/include/kernel/
--   Sched           microkernel/kernel/scheduling.c and the queue functions of
--                   microkernel/include/kernel/scheduling.h.
--                   Sched/Queues has the invariant of the run queue, Sched/Moves the queue
--                   functions, Sched/Policy, Sched/Ticks and Sched/Init the properties
--   Threads         the hash table, sleeping, waiting and exec of microkernel/kernel/thread.c; Threads/Laws
--   Ipc             microkernel/kernel/message.c. Ipc/Keeps says what waking and blocking leave alone,
--                   Ipc/Calls and Ipc/Answers treat the three calls, Ipc/Fifo a queue of senders,
--                   Ipc/Rpc a whole remote call, Ipc/Faults the ways in which they fail
--   Fd              microkernel/kernel/fd.c: the table of open files of a process. Fd/Laws treats the
--                   descriptors below 32, Fd/Page those above, Fd/Release what is released
--   Signal          microkernel/kernel/signal.c: the queue of signals of a process, sending and handling;
--                   Signal/Laws
--   Sync            microkernel/kernel/sync.c, the objects that threads wait for. Sync/Lookup treats the
--                   hash table, Sync/Waiters the waiting threads, Sync/Blocks and Sync/Wakes the
--                   calls that block and wake them
--   Irq             microkernel/kernel/irq.c, the handlers of the interrupt lines; Irq/Handling
--   SigSet          soft/libc/signal/sigset.c, the signal sets of the C library; SigSet/Laws
--   Tty             servers/console/tty.c, the terminal of the console server: keys and reads. Tty/Lines has
--                   the reading of a line, Tty/Editing the editing characters
--   Keyboard        servers/console/keyboard.c and asctable.c: from scan codes to keys; Keyboard/Case
--   Clock           soft/libc/timer/time.c: mktime and the wrappers of the clock and timer calls;
--                   Clock/Epoch has the calendar
--   Bcache          servers/fs-io/fs/bcache.c, the file server's cache of disk blocks; Bcache/Misses treats
--                   its hash table, Bcache/Sizes its free lists
--   Mutex           soft/libc/pthreads/pthread-mutex.c, mutexes and their attributes; Mutex/Attributes
--   Timers          microkernel/kernel/timer.c, the timers and the timer interrupt; Timers/Expiry
--   VmMap           microkernel/mm/vm_map.c and parts of vm.c and vm_object.c, the address maps of
--                   processes. VmMap/Ranges and VmMap/Fork have more of its operations; VmMap/Walks
--                   treats lookup and the search for room, VmMap/Entering and VmMap/Clips new and cut
--                   entries, VmMap/Forks (with VmMap/Copies) the copy of a map
--   Process         microkernel/kernel/process.c, processes; Process/Calls has spawn and wait,
--                   Process/Family treats the children, Process/Waiting fork and wait
--   Pmap            microkernel/arch/i386/pmap.c, page tables, with the macros of
--                   include/i386/asm/vm_param.h; Pmap/Copy has the copy of a map and the changes of a
--                   range, Pmap/Walk treats walks, Pmap/Sharing the kernel's tables
--   Page            microkernel/mm/vm_page.c, the pages of memory; Page/Table treats their hash table,
--                   Page/Cycle a page that is allocated and given back
--   Vfs             servers/fs-io/fs/vfs.c, the file server's cache of vnodes; Vfs/Cache
--   Files           servers/fs-io/fs/file.c, with soft/libc/kernel/fd.c and the calls for descriptors
--                   of microkernel/arch/i386/syscall.c; Files/Offsets
--   Ext2            servers/fs-io/fs/ext2fs/: ext2.c, ext2inode.c and ext2dir.c. Ext2/Walk has the walk
--                   of a path, Ext2/Resolve treats it; Ext2/Reading treats the reading of a file,
--                   Ext2/Blocks the mapping, Ext2/Names the comparison of names
--   Slab            microkernel/mm/vm_slab.c, the allocator of kernel objects; Slab/Alloc, Slab/Free
-- Each part's Tests module has tests and runs of its theorems.
--
-- Conventions. A pointer is a number, and a store is a function of it. A call that blocks is split
-- where it calls `schedule`: its first half ends in `blocked`, and its second half is a function of
-- the kernel in which the thread runs again. Undefined behaviour (an index out of range, a read
-- through NULL, an item taken from a list that it is not in) is a result of its own: `none`, `fault`
-- or `undefined`. Sched keeps a run queue as the list of its threads, in the form in which DList
-- relates the macros of list.h to lists. `vm_share_addr`, which messages only call, is a parameter.
--
-- Bounds. Words have 32 bits and the page of an id map 1024 words. Priorities are below 128, so that
-- 32 queues are enough. Loops go down a list or a word's bits, but for those in Bcache, Sync, Page,
-- Irq, Vfs, Files, Pmap, Timers, VmMap, Process and Ext2, which run on fuel: the halvings of a 32-bit
-- size end within 33 steps, a new page table is as deep a recursion as the tables it needs itself, and
-- a chain of a hash table, or the list of timers, is walked for as many steps as the caller says,
-- which is enough if it is the number of the objects there. A read of a file takes fewer rounds
-- than it has bytes.
--
-- Not modelled: the register switch and everything else in assembler, the SMP and preemption
-- variants (config.h turns them off), the removal of page table entries, the end of a process and the
-- copy of file descriptors at a fork, the rest of the servers (servers/) and of the C library (soft/).
pub mod Base
pub mod Bits
pub mod IdMap
pub mod DList
pub mod Kernel
pub mod Sched
pub mod Threads
pub mod Ipc
pub mod Bcache
pub mod Clock
pub mod Ext2
pub mod Fd
pub mod Files
pub mod Irq
pub mod Keyboard
pub mod Mutex
pub mod Page
pub mod Pmap
pub mod Process
pub mod SigSet
pub mod Signal
pub mod Slab
pub mod Sync
pub mod Timers
pub mod Tty
pub mod Vfs
pub mod VmMap
