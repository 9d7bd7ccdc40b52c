-- ===== src/Lru.antt =====
-- The crates `lru` and `tokio::sync::OnceCell`, as far as src/cache.rs uses them.
mod Model
pub mod Entries
unfoldable pub use Model.*
