-- ===== src/App.antt =====
-- src/app.rs: the HTTP handler.
mod Defs
mod Handler
mod Errors
pub mod Told
pub mod Hosts
pub mod Served
pub mod Metadata
unfoldable pub use Defs.*
unfoldable pub use Errors.*
unfoldable pub use Handler.*
