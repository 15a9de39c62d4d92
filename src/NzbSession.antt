-- ===== src/NzbSession.antt =====
-- internal/nzb/session.go: the sequential download of a file over one connection, which may be lost.
pub mod Model
pub mod Writing
pub mod Delivering
pub mod Assembling
pub mod Files
pub mod Fitting
pub mod Surviving
mod Tests
