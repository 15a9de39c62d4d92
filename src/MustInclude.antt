-- ===== src/MustInclude.antt =====
-- internal/api/regexcache.go: the cache of compiled file filters.
pub mod Model
pub mod Entries
pub mod System
mod Tests
