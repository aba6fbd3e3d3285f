-- ===== src/Lib.antt =====
-- Pintos, an instructional kernel for the 80x86: a verification library beside its C sources.
--
-- Paths are from the root of the repository. The comments of the files below leave out the leading
-- pintos/src/.
--
-- The parts and how they interact. Threads run on one CPU and give it up in the scheduler
-- (pintos/src/threads/thread.c); semaphores and locks (pintos/src/threads/synch.c) block and unblock
-- threads. Lists with two sentinels (pintos/src/lib/kernel/list.c) hold the ready threads, the waiters,
-- and most other collections. Pages of memory come from two pools (pintos/src/threads/palloc.c), which
-- keep their use in bitmaps (pintos/src/lib/kernel/bitmap.c); the same bitmaps keep the use of the file
-- system's sectors (pintos/src/filesys/free-map.c) and of the swap slots (pintos/src/vm/swap.c). Files
-- (pintos/src/filesys/inode.c) and swapped pages are in sectors of block devices
-- (pintos/src/devices/block.c).
--
-- The files:
--   Prelude, Bits    shared names: the tests on numbers, arrays as lists, the outcome of a kernel
--                    function (it returns, it stops the kernel in a failed assertion or a panic, or its
--                    fuel is used up), the binary digits of a number.
--   Bitmap           pintos/src/lib/kernel/bitmap.c. A bitmap is its size and its list of 32-bit
--                    elements; the theorems are about `bit`, the abstract view, in Bitmap/Bit (one bit),
--                    Bitmap/Range (ranges), Bitmap/Count, Bitmap/Create and Bitmap/Scan (the search).
--   Memory           the block functions of pintos/src/lib/string.c, over a memory of bytes by address.
--   Palloc           pintos/src/threads/palloc.c, over Bitmap and Memory: Palloc/Get, Palloc/Free,
--                    Palloc/Init and Palloc/Roundtrip.
--   KernelList       pintos/src/lib/kernel/list.c, over the `next` and `prev` of every element.
--                    KernelList/Chain says which links hold which elements; KernelList/Insert, Remove,
--                    Ops and Walk are about the operations.
--   HashTable        pintos/src/lib/kernel/hash.c, over the sequences of its bucket lists. HashTable/Find has
--                    the invariant, HashTable/Rehash the change of size, HashTable/Update and Map the
--                    changes of elements, HashTable/Iterate the walks over all of them.
--   CString          the functions of pintos/src/lib/string.c on terminated strings, over Memory, and the
--                    hashes of bytes of pintos/src/lib/kernel/hash.c: CString/Text, CString/Copying, and
--                    CString/Tokens about strtok_r.
--   Threads          the threads and the scheduler of pintos/src/threads/thread.c. Threads/Sched has the
--                    invariant, Threads/Switch the switch of threads, Threads/Calls and Unblock the calls
--                    that cause or prepare it, Threads/Turns how long a ready thread waits.
--   Synch            semaphores and locks of pintos/src/threads/synch.c, over Threads. The calls of one
--                    lock by all threads are steps of a relation, in which a thread may call any of them at any
--                    time, and only the assertions hold it back. Between the steps anything else may run that
--                    keeps the scheduler's invariant and neither blocks, unblocks nor ends a thread in sema_down
--                    of the lock. The idle thread does not take the lock.
--                    Synch/Returns is about single rounds, Synch/Guards about the assertions, Synch/Effects about
--                    the kernel's threads, Synch/Invariant and Exclusion about every reachable state.
--   BlockDevice      block_read and block_write of pintos/src/devices/block.c.
--   Inode            the bytes of a file in pintos/src/filesys/inode.c, over BlockDevice.
--   IntQueue         the ring buffer of pintos/src/devices/intq.c, over Threads: its bytes as a queue of at
--                    most 63.
--   File             the open files of pintos/src/filesys/file.c, over Inode; several may share an inode.
--   Descriptors      the open files of a thread in pintos/src/userprog/syscall.c, over File: Descriptors/Table
--                    opens and looks up, Descriptors/Close closes, Descriptors/Transfer reads and writes.
--   Syscall          the checks of user pointers and the dispatcher of pintos/src/userprog/syscall.c.
--   Children         the exit statuses of children, in process_execute and process_wait of
--                    pintos/src/userprog/process.c and in sys_exit of pintos/src/userprog/syscall.c:
--                    Children/Status and Calls are about each call, Children/Runs has the steps of a parent and
--                    its children, Children/Collect and Once are about every order of them.
--   SupPage          the supplemental page table of pintos/src/vm/page.c, over HashTable.
--   Segment          the loading of the segments of a program in pintos/src/userprog/process.c, over File:
--                    Segment/Sizes is about their checks and sizes, Segment/Load, Pages and Loop about what
--                    load_segment leaves in the memory.
--   Swap             pintos/src/vm/swap.c, over Bitmap and BlockDevice.
--   FreeMap          pintos/src/filesys/free-map.c, over Bitmap.
--
-- How state and operations correspond to the code. A struct is a record, the variables of a file are a
-- record or arguments, and a function that changes them returns them. A pointer is its address, and null
-- is 0. In Threads and Synch a list is the sequence of its elements, which the theorems of KernelList
-- justify. A function that switches threads ends in the thread that goes on, as switch_threads does.
-- What malloc and palloc return where another component calls them, the addresses of code, and whether a
-- bitmap is written to its file are arguments.
--
-- Numbers. A size_t or an unsigned is a number below 2 ^ 32, and the sums that the code relies on
-- wrap around. An off_t is a number; where the code tests a difference for a negative value, the
-- difference here is 0.
--
-- Loops. A loop over a counter is a recursion on the rounds that are left. A loop over the links of a list
-- or over the rest of a transfer takes fuel; the theorems ask for one round more than the list has
-- elements, or than there are bytes, and show that the loop ends with it. So does a loop to the end of a
-- string, and the search for a power of two in rehash, which gets smaller in every round.
--
-- Not modelled: the boot loader and the assembly stubs, interrupts and exceptions, the device drivers, the
-- page tables, the start and the end of processes but for the statuses of children, the frame table and the loading of pages of memory maps, directories,
-- malloc, formatted output, and the user programs, tests and tools of the repository. The manifest of the components says what is left out of a part that is modelled.
pub mod Bitmap
pub mod Bits
pub mod BlockDevice
pub mod CString
pub mod Children
pub mod Descriptors
pub mod File
pub mod FreeMap
pub mod HashTable
pub mod Inode
pub mod IntQueue
pub mod KernelList
pub mod Memory
pub mod Palloc
pub mod Prelude
pub mod Segment
pub mod SupPage
pub mod Swap
pub mod Synch
pub mod Syscall
pub mod Threads
