-- ===== src/Trackers.antt =====
-- internal/engine/trackers.go: the list of trackers, its ranking and its cache file.
pub mod Model
pub mod Lists
pub mod Announcing
pub mod Probing
pub mod Ranking
pub mod Cache
pub mod System
pub mod Restarting
mod Tests
