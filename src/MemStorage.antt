-- ===== src/MemStorage.antt =====
-- internal/engine/memstorage.go: the in-memory piece store, bounded by a byte budget.
-- `Model` has the store and its operations as functions, `System` the critical sections of concurrent
-- callers as steps.
pub mod Model
pub mod Evict
pub mod Popping
pub mod Rounds
pub mod Accounts
pub mod Ops
pub mod Writes
pub mod Marks
pub mod Bytes
pub mod Torrents
pub mod Blank
pub mod System
pub mod Threads
pub mod Sections
pub mod Interleaving
mod Tests
