-- ===== src/SegIndex.antt =====
-- internal/media/segindex.go: the index of the cached segment files of a session.
pub mod Model
pub mod Files
pub mod Accounts
pub mod System
pub mod Evicting
pub mod Candidates
pub mod Choosing
mod Tests
