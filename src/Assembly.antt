-- ===== src/Assembly.antt =====
-- internal/nzb/assembly.go: the parallel, progressive download of one NZB file.
-- `Extents` is the set of byte ranges written so far, `Model` the shared state with each stretch of
-- code under its mutex as a function, and the other children prove what these guarantee.
pub mod Extents
pub mod Cover
pub mod Runs
pub mod Model
pub mod Readers
pub mod Layout
pub mod System
pub mod Counts
pub mod Picking
pub mod Invariant
pub mod Finishing
pub mod Placement
pub mod Opening
pub mod Written
pub mod Writing
pub mod Completing
pub mod Recording
pub mod Correct
mod Tests
