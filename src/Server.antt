-- ===== src/Server.antt =====
-- The server: channels, connections and the handlers of what clients send. Pointers to connections,
-- channels and buckets are numbers, and the memory behind them is a function; `next` is the first
-- that is not in use. A handler's calls run in the order of the source.
pub mod State
pub mod Names
pub mod Channels
pub mod Env
pub mod Messages
pub mod Membership
pub mod Handlers
pub mod Moderate
pub mod Dispatch
pub mod Race
pub mod Run
pub mod Alike
pub mod Heard
pub mod Silence
pub mod Limits
pub mod Limiters
pub mod Gauges
pub mod Records
pub mod Sanctions
pub mod Handshake
pub mod Sweep
mod Tests
pub mod Keeping
pub mod Pumps
pub mod Lifecycle
pub mod FanOut
