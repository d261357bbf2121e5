-- ===== src/Lib.antt =====
-- Verification library for the runtime of a recompiled PS3 program: the host code that stands in for
-- the lv2 kernel and for the system libraries.
--
-- The recompiled guest calls a handler with its argument registers. A handler reads and writes guest
-- memory, which is big-endian, keeps its objects in fixed tables whose slot numbers plus one are the
-- guest's handles, and returns a CELL_* status. Guest threads are host threads, so handlers run
-- concurrently, and a handler's work under a lock is the unit of interleaving.
--
-- Which file models what:
--   Prelude              lists, Boolean tests, bit masks and circular buffers, shared by all parts.
--   Guest                words in guest memory: runtime/memory/vm.h (vm_to_host, VM_ALIGN_UP), the loads of
--                        runtime/ppu/ppu_memory.h, the byte swaps that each handler file writes out, and
--                        the codes of include/ps3emu/error_codes.h. `Memory` is a function from addresses
--                        to bytes.
--   Guest.Stack          vm_stack_alloc_init and vm_stack_allocate of runtime/memory/vm.h.
--   Lv2.Memory           runtime/syscalls/sys_memory.c: user memory. `State` holds the file's globals;
--                        sys_memory_allocate, sys_memory_free and the two queries have their own names.
--   Lv2.Memory.Mapper    the memory containers and sys_mmapper of the same file, on the same state.
--   Lv2.Event            runtime/syscalls/sys_event.c: event queues; its children Ports, Receive and Flags
--                        model ports, the blocking receive and event flags, and Flags.Waiters interleaves
--                        the threads at one flag.
--   Lv2.Semaphore        runtime/syscalls/sys_semaphore.c in the Windows build: what each call does to a slot,
--                        and in Threads how threads interleave their calls.
--   Lv2.Mutex            runtime/syscalls/sys_mutex.c: the slots, and in Threads how threads interleave their
--                        calls on one mutex.
--   Lv2.Cond             runtime/syscalls/sys_cond.c: the handlers up to their sleeps, in Threads how threads
--                        wait, signal and destroy, and in Contract what is promised to them.
--   Sync.Ticket          the ticket mutex of libs/sync/cellSync.c, one shared access at a time.
--   Sync.Queue           the bounded queue and the lock-free queue of the same file: `Pushing`, `Popping` and
--                        `Clearing` hold the accesses of the calls, and `Machine` interleaves the threads.
--   Sync.Rwm             its reader-writer memory, with copies byte by byte.
--   Sync.Barrier         its barrier.
--   Fifo                 include/ps3emu/yz_fifo_publication.h: the checks that say where the graphics FIFO
--                        may resume; Islands and Packets hold the two families. Names lose `yz_fifo_`.
--   Sync.Bytes           memory behind a pointer, and memcpy.
-- Children named for what they prove (Invariant, Fifo, Delivery, Pinning, Safety and so on) hold the
-- theorems, and each Tests module runs the code on concrete inputs.
--
-- Conventions. A C integer of w bits is a natural number kept below 2^w by an explicit remainder, and a
-- signed one is its bit pattern. A table lookup that the C code guards by a range check is total here,
-- with the status of a missing object where the index is out of the table. A blocking call is cut at its
-- sleeps into a beginning, a look each time it is awake, and a timeout; a sleeper may wake at any time,
-- so that spurious wakes are covered. A loop runs by recursion on the number of its rounds that are left
-- (`drain_loop`), or is a search over a table (`find_index`); neither has fuel to run out of.
--
-- Parameters: the host that reserves and commits pages (`Lv2.Memory.Host`) answers as it likes, and so does CreateSemaphore (`created`); the
-- CRITICAL_SECTION behind a mutex is a lock that its owner may enter again (`Lv2.Mutex.HostLock`).
--
-- Not modelled: the host's locks, condition variables and clocks, whose effect is the choice of units and
-- of wakes; the clamping of timeouts; the SPU reservation hooks of cellSync.c, which order accesses and
-- change no word; the lv2 reader-writer locks, threads and timers; the SPU and PPU runtime; the other
-- system libraries, which are host input and output; and the game's own glue under yakuza/.
pub mod Prelude
pub mod Guest
pub mod Lv2
pub mod Sync
pub mod Fifo
