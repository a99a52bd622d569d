-- ===== src/Broadcast/MutexRing/Invariant.antt =====
-- ring.go: the invariant of the ring with all its subscriptions, and the moves that keep it.
mod Defs
mod Readers
mod Writers
pub use Defs.*
pub use Readers.*
pub use Writers.*
