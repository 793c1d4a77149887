-- ===== src/Log.antt =====
-- components/croniot/src/log: the frames and cursors of the journal, and what stands before it.
mod Tests
pub mod Frames
pub mod Record
pub mod RateLimiter
pub mod Ring
pub mod Cursor
pub mod PerStream
pub mod WriteAccounting
pub mod Cbor
pub mod Levels
pub mod LineParser
pub mod Reclaimer
pub mod Journal
