-- ===== src/Pool.antt =====
-- src/cache.rs: `CacheCapacityPool` and `CacheCapacityReservation`. The atomic counter of the pool
-- is a number below 2^64. The functions here are the three loops with no other thread between a
-- load and its `compare_exchange`; `Pool.Threads` has the loops step by step, for any interleaving.
mod Words
pub mod Threads
pub mod Conserve
pub mod Atomic
pub mod Cases
unfoldable pub use Words.*
