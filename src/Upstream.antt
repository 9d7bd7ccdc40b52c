-- ===== src/Upstream.antt =====
-- src/upstream.rs: resources, errors and the trait `Upstream`; the children model the upstreams.
mod Resource
pub mod Fallthrough
pub mod Sources
pub mod Polls
pub mod Delivery
pub mod Paths
unfoldable pub use Resource.*
