-- ===== src/FileAt.antt =====
-- internal/archive/fileat.go: the reader that holds no file open between its reads.
pub mod Model
pub mod Reading
pub mod Looping
pub mod Reads
mod Tests
