-- ===== src/Sync.antt =====
-- cellSync, the guest's synchronisation primitives (libs/sync/cellSync.c).
pub mod Bytes
pub mod Ticket
pub mod Barrier
pub mod Rwm
pub mod Queue
