-- ===== src/Routes.antt =====
-- src/cache.rs: `CacheRoutes` and its rules: which paths are served, and how long what they name
-- is kept. The crate `path-tree` is a parameter.
mod Rules
mod Table
pub mod Ages
pub mod Matching
unfoldable pub use Rules.*
unfoldable pub use Table.*
