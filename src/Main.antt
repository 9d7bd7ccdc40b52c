-- ===== src/Main.antt =====
-- src/main.rs: from the configuration to the state of the server, and the metrics of its requests.
mod Upstreams
mod Start
mod Middleware
pub mod Wired
pub mod Settings
pub mod Ready
pub mod Labels
pub mod Serve
pub mod Counted
mod Shutdown
pub mod Exit
unfoldable pub use Upstreams.*
unfoldable pub use Start.*
unfoldable pub use Middleware.*
unfoldable pub use Shutdown.*
