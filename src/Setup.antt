-- ===== src/Setup.antt =====
-- src/cache.rs, `CacheStorage::new`.
mod Defs
pub mod Valid
unfoldable pub use Defs.*
