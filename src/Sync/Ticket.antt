-- ===== src/Sync/Ticket.antt =====
-- The ticket mutex of libs/sync/cellSync.c: one big-endian guest word, `serving` in its high half and
-- `next` in its low half, that any number of threads update by compare-and-exchange.
--
-- The tests and the desired words are functions, and `Move` strings them together one shared access
-- at a time. A thread calls Unlock only while it holds the mutex. The SPU lock line around the
-- exchange is left out: it orders the exchange against SPU commits, and changes no word itself.
pub mod Line
pub mod Words
pub mod Invariant
pub mod Safety
mod Tests
use yakuza_dead_souls_ex.Prelude.{
  ℕ, ◌+◌, ◌-◌, ◌*◌, ◌/◌, ◌%◌, ◌^◌, ◌<◌, ◌≡◌, ◌≢◌, Bool, true, false, Option, none, some,
}
use yakuza_dead_souls_ex.Prelude.Tests.{◌==◌, if◌then◌else◌}
use yakuza_dead_souls_ex.Guest.{bswap32}

abbrev pub u16 : ℕ → ℕ
u16 n = n % 2 ^ 16

-- `word >> 16` and `word & 0xffff` of the swapped word
abbrev pub serving : ℕ → ℕ
serving raw = bswap32 raw / 2 ^ 16

abbrev pub next : ℕ → ℕ
next raw = bswap32 raw % 2 ^ 16

-- `(current << 16) | next`, as the guest stores it
abbrev pub pack : ℕ → ℕ → ℕ
pack current next = bswap32 (current * 2 ^ 16 + next)

-- `cellSyncMutexLock`: CELL_SYNC_ERROR_BUSY where 0xffff tickets are out, else the word with one
-- more.
unfoldable pub lock_desired : ℕ → Option ℕ
lock_desired raw =
    if u16 (next raw + 2 ^ 16 - serving raw) == 0xffff
    then none
    else some (pack (serving raw) (u16 (next raw + 1)))

-- `cellSyncMutexTryLock`: CELL_SYNC_ERROR_BUSY unless every ticket was served.
unfoldable pub try_desired : ℕ → Option ℕ
try_desired raw =
    if serving raw == next raw then some (pack (serving raw) (u16 (next raw + 1))) else none

-- `cellSyncMutexUnlock`: CELL_SYNC_ERROR_STAT where no ticket is out.
unfoldable pub unlock_desired : ℕ → Option ℕ
unlock_desired raw =
    if serving raw == next raw then none else some (pack (u16 (serving raw + 1)) (next raw))

-- Where a thread stands, with the word that it last loaded.
pub data Pc : Type 0 where
  idle : Pc  -- outside, or returned with an error
  locking : (raw : ℕ) → Pc  -- before the exchange of Lock
  spinning : (ticket : ℕ) → Pc  -- the second loop of Lock
  trying : (raw : ℕ) → Pc  -- before the exchange of TryLock
  critical : Pc  -- Lock or TryLock returned CELL_OK
  unlocking : (raw : ℕ) → Pc  -- before the exchange of Unlock

-- One access by one thread. An exchange may fail at any time (it is the weak form), and then loads
-- the word again.
pub data Move (m : ℕ) : Pc → ℕ → Pc → Type 0 where
  lock_load : Move m idle m (locking m)
  lock_busy : {r : ℕ} → lock_desired r ≡ none → Move m (locking r) m idle
  lock_fail : {r : ℕ} → Move m (locking r) m (locking m)
  lock_take : {r w : ℕ} → m ≡ r → lock_desired r ≡ some w → Move m (locking r) w (spinning (next r))
  spin : {t : ℕ} → serving m ≢ u16 t → Move m (spinning t) m (spinning t)
  enter : {t : ℕ} → serving m ≡ u16 t → Move m (spinning t) m critical
  try_load : Move m idle m (trying m)
  try_busy : {r : ℕ} → try_desired r ≡ none → Move m (trying r) m idle
  try_fail : {r : ℕ} → Move m (trying r) m (trying m)
  try_take : {r w : ℕ} → m ≡ r → try_desired r ≡ some w → Move m (trying r) w critical
  unlock_load : Move m critical m (unlocking m)
  unlock_stat : {r : ℕ} → unlock_desired r ≡ none → Move m (unlocking r) m idle
  unlock_fail : {r : ℕ} → Move m (unlocking r) m (unlocking m)
  unlock_done : {r w : ℕ} → m ≡ r → unlock_desired r ≡ some w → Move m (unlocking r) w idle

pub record System : Type 0 where
  pub word : ℕ
  pub pc : ℕ → Pc

abbrev pub move_to : (ℕ → Pc) → ℕ → Pc → ℕ → Pc
move_to pc i p j = if j == i then p else pc j

pub data Step (s : System) : System → Type 0 where
  act :
      (i w : ℕ) (p : Pc)
      → Move s.word (s.pc i) w p
      → Step s (record { word = w; pc = move_to s.pc i p })

-- `cellSyncMutexInitialize`: no ticket is out, and no thread has called yet.
abbrev pub initial : System
initial = record { word = 0; pc = λ _. idle }

pub data Reach : System → Type 0 where
  start : Reach initial
  after : {s t : System} → Reach s → Step s t → Reach t
