-- ===== src/Lv2.antt =====
-- The lv2 system calls of runtime/syscalls.
--
-- A handler takes the argument registers that it reads, already cut to their width by the LV2_ARG_*
-- macros, and returns the status that goes to r3 with the new state.
pub mod Memory
pub mod Event
pub mod Semaphore
pub mod Mutex
pub mod Cond
