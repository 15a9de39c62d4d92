-- ===== src/SegCache.antt =====
-- internal/streamproxy/cache.go: the segment cache, bounded in entries, bytes and time.
pub mod Model
pub mod Entries
pub mod Invariant
pub mod Eviction
pub mod Stores
pub mod Puts
pub mod System
mod Tests
