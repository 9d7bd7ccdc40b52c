-- ===== src/Lib.antt =====
-- Verification of server3, a caching file server in front of HTTP servers and S3 buckets.
--
-- A request goes through `get_resource` (src/app.rs), which picks a cache by the `Host` header;
-- `Cache::get` (src/cache.rs) matches the path against the routes, and answers from a file on disk
-- or fetches the resource from its upstream (src/upstream/) and keeps it. All caches share one
-- `CacheStorage`: an LRU map from keys to cells, and a pool of disk capacity that files reserve.
--
-- Files, and the code they are about:
--   Prelude        shared helpers: runs that may panic, results, texts, integers, lists
--   Config         src/config.rs: the configuration and its defaults
--   Pool           src/cache.rs, `CacheCapacityPool`, `CacheCapacityReservation`: Pool.Words has one
--                  call by itself, Pool.Threads each atomic access of any number of threads
--   Routes         src/cache.rs, `CacheRoutes` and the rules
--   Metrics        src/cache.rs, `CacheRouteMetrics`, and the updates of counters and gauges
--   Lru            the crates `lru` and `tokio::sync::OnceCell`, as interfaces with laws
--   Upstream       src/upstream.rs, src/upstream/fallthrough.rs, src/upstream/s3.rs,
--                  src/upstream/http.rs, src/response.rs; Upstream.Polls has the bodies of
--                  src/response.rs poll by poll, for Upstream.Delivery
--   Cache          src/cache.rs: Cache.Storage has the state and the claim of a cell, Cache.Create
--                  `create_cached_resource`, Cache.Body `body_from_cached_resource`, Cache.Get
--                  `Cache::get`; the other children are the lemmas about them
--   Tasks          src/cache.rs, `Cache::get` for many requests at once: Tasks.Defs has where a
--                  request stands, Tasks.Steps its steps, Tasks.Invariant what each step keeps;
--                  Tasks.Honest and Tasks.Carried are about where files come from, Tasks.Search
--                  and Tasks.Progress about deadlocks, Tasks.Costs and Tasks.Measure about the
--                  number of steps, Tasks.Credits and Tasks.Tally about the counters of the
--                  routes, Tasks.Alone, Tasks.Rooms, Tasks.Filling and Tasks.Single about a task
--                  that moves alone, Tasks.Filled, Tasks.Silent and Tasks.Counting about a
--                  request by itself; the other children have the lemmas step by step
--   Setup          src/cache.rs, `CacheStorage::new`
--   App            src/app.rs: App.Handler has `get_resource`, App.Errors the responses to errors
--   Main           src/main.rs: Main.Upstreams has `build_upstream` with the constructors of the
--                  upstreams, Main.Start the start, Main.Middleware the middleware that
--                  counts requests; Main.Settings is about what the caches are
--                  built of; Main.Serve runs the handler from the start on, and
--                  Main.Counted one request through the middleware and the handler;
--                  Main.Shutdown is the end of the process, for Main.Exit
--   Tests          runs and instances at concrete inputs
--
-- How state is modelled. An `Arc<OnceCell<_>>` is the number of a cell; `CacheStorage.cells` says
-- what each holds, and a cell is dropped when the LRU map and the request let go of it, which
-- returns its capacity and lowers its gauges. A panic is the value `panic` of `Run`. The files,
-- clocks and upstreams that one request meets are the fields of `Outside`; a file is its contents.
--
-- Fuel. The eviction loop of `create_cached_resource` runs on a round for each entry of the LRU map
-- and one more; a loop out of rounds is the value `stuck`. The reader of a cached file runs as
-- long as the receiver takes frames. A capacity is below 2^64, as the `u64` that holds it is.
--
-- One request and many. Cache has the whole of `Cache::get` for a request that no other meets;
-- Tasks.Single compares the two. Tasks has any number of requests, from the lock of the cache on:
-- each is a task with a phase, and any task may go on at any time. A step makes at most one access
-- to the capacity pool, and may make others with it that the code makes one after the other: a
-- reservation that fails under the lock goes with `pop_lru` and the counters of the eviction, one
-- that succeeds with the two gauges and the set of the cell, and the return of the capacity of a
-- dropped file with the two gauges; the counters of an answer are one step. So nothing is shown of
-- what another thread sees between these. The guards of `tokio::sync::Mutex` and of `OnceCell` are
-- derived from the phases: who is between `lock` and the end of the guard has the lock, who runs
-- the closure of `get_or_try_init` has the permit of the cell. A task that waits may be cancelled.
-- Once an answer is counted, the file is opened for the body, which shares nothing: a task that
-- has been counted stands for one that returns and for one that is cancelled there, its counts
-- kept. A task lets go of each `Arc` in a step of its own. The capacity pool, whose calls are one
-- step each in Tasks, is modelled access by access in Pool, with sequentially consistent memory.
--
-- What is not modelled. Logs, deserialization, the client libraries, the router, and of
-- src/main.rs the sockets, the recorder of metrics and its upkeep are left out, and so are the two
-- gauges that `CacheStorage::new` sets once. Gauges are natural numbers, where the source has f64.
-- That the thread which makes a temporary file may itself panic is left out. The test support in
-- crates/ is no part of the server.
pub mod Prelude
pub mod Pool
pub mod Config
pub mod Routes
pub mod Lru
pub mod Upstream
pub mod Metrics
pub mod Cache
pub mod App
pub mod Setup
pub mod Tasks
pub mod Main
pub mod Tests
