-- ===== src/FtpPool.antt =====
-- internal/ftpstream/pool.go: idle FTP control connections, and the caches of sizes and verdicts.
pub mod Model
pub mod Buckets
pub mod Conserving
pub mod Bounds
pub mod Leaving
pub mod System
pub mod Meta
pub mod Lease
pub mod Leasing
pub mod Owning
mod Tests
mod LeaseTests
