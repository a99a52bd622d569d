-- ===== src/Broadcast/SeqRing/Invariant.antt =====
-- The invariant of the ring: which slots hold which messages, and what a subscription has copied.
mod Defs
mod Writing
mod Reading
mod Copying
pub use Defs.*
pub use Writing.*
pub use Reading.*
pub use Copying.*
