-- ===== src/Broadcast.antt =====
-- internal/broadcast: fan-out.
pub mod Errors
pub mod Capacity
pub mod Segments
pub mod Slots
pub mod SeqRing
pub mod MutexRing
pub mod MapChan
