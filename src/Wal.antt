-- ===== src/Wal.antt =====
-- wal.rs: the log entries, their encoding, and `WalManager`.
pub mod Entry
pub mod Manager
pub mod Replayable
pub mod Laws
pub mod Crash
pub mod Total
mod Examples
