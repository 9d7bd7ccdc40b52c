-- ===== src/Cache.antt =====
-- src/cache.rs: the cache. `Cache.Storage` holds the state that requests share and what evicts from
-- it, `Cache.Create` the filling of an entry, `Cache.Get` a request. One request runs at a time.
mod Types
mod Storage
mod Create
pub mod Body
pub mod Stream
mod Get
pub mod Totals
pub mod Invariant
pub mod Claim
pub mod Renew
pub mod Evict
pub mod Space
pub mod Settle
pub mod Fill
pub mod Counts
pub mod Front
pub mod Request
pub mod Sent
pub mod Total
unfoldable pub use Types.*
unfoldable pub use Storage.*
unfoldable pub use Create.*
unfoldable pub use Get.*
