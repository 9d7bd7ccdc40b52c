-- ===== src/Tasks.antt =====
-- src/cache.rs: any number of requests for cached paths at once. A request is a task that advances
-- from one `await` to the next or to an access to what tasks share; any task may move at any time.
mod Defs
mod Steps
pub mod Invariant
pub mod Members
pub mod Quiet
pub mod Drops
pub mod Stores
pub mod Inserted
pub mod Claims
pub mod Safety
pub mod Search
pub mod Costs
pub mod Measure
pub mod Settle
pub mod Credits
pub mod Tally
pub mod Alone
pub mod Claimed
pub mod Rooms
pub mod Filled
pub mod Filling
pub mod Single
pub mod Silent
pub mod Counting
pub mod Progress
pub mod Honest
pub mod Losses
pub mod Carried
pub mod Rounds
pub mod Origin
unfoldable pub use Defs.*
unfoldable pub use Steps.*
