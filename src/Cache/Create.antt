-- ===== src/Cache/Create.antt =====
-- src/cache.rs: `create_cached_resource`, with the loop that makes room for a file.
use server.Cache.Types.{CachedResourceKey, CachedResourceKey-discrete, CachedResource, Outside}
use server.Cache.Storage.{CacheStorage, emit, drop_cell}
use server.Lru.{LruCache}
use server.Metrics.{Counter, Gauge, increment, raise}
use server.Pool.{CacheCapacityReservation, reserve, reserve_up_to}
use server.Prelude.{
  ℕ, zero, suc, ◌-◌, Option, none, some, List, length, Result, ok, err, Run, done, stuck, ◌>>=◌,
}
use server.Upstream.{Body, UpstreamError, UpstreamResourceHeaders, io}

-- The handles of `Cache` that do not depend on a route.
pub record HostMetrics : Type 0 where
  pub cache_eviction_count : Counter
  pub cache_eviction_bytes : Counter
  pub cache_disk_file_count : Gauge
  pub cache_disk_bytes : Gauge

-- The estimate of `expires_at_timestamp`.
unfoldable pub estimate : Outside → Option ℕ → Option ℕ
estimate outside none = none
estimate outside (some expires_at) =
    outside.timestamp_checked_add outside.timestamp_now (expires_at - outside.instant_now)

module _ (lru : LruCache CachedResourceKey ℕ CachedResourceKey-discrete) where
  -- The counters for an evicted resource: its own handles.
  unfoldable pub count_eviction : Option CachedResource → CacheStorage lru → CacheStorage lru
  unfolding emit
  count_eviction none s = s
  count_eviction (some evicted) s =
      emit lru (increment evicted.cache_eviction_bytes evicted.size)
        (emit lru (increment evicted.cache_eviction_count 1) s)

  -- `pop_lru`, the counters, and the drop of what was popped; `none` if there was nothing.
  unfoldable pub evict : CacheStorage lru → Run (Option (CacheStorage lru))
  unfolding count_eviction drop_cell
  evict s =
      let (evicted, cache) = lru.pop_lru s.cached_resources in
      elim evicted [
        | none ↦ done none
        | some (_, c) ↦ do
          s' ← drop_cell lru c (count_eviction (s.cells c) (record s { cached_resources = cache }))
          done (some s')
      ]

  unfoldable pub take_rest : ℕ → CacheStorage lru → CacheCapacityReservation × CacheStorage lru
  unfolding reserve_up_to
  take_rest size s =
      let (reservation, pool) = reserve_up_to s.capacity_pool size in
      (reservation, record s { capacity_pool = pool })

  -- The loop. Fuel: one round for each entry, and a last one.
  unfoldable pub reserve_space :
      ℕ → ℕ → CacheStorage lru → Run (CacheCapacityReservation × CacheStorage lru)
  unfolding evict take_rest reserve
  reserve_space zero size s = stuck
  reserve_space (suc fuel) size s =
      let (reserved, pool) = reserve s.capacity_pool size in
      elim reserved [
        | some reservation ↦ done (reservation, record s { capacity_pool = pool })
        | none ↦ do
          evicted ← evict s
          elim evicted [ none ↦ done (take_rest size s) | some s' ↦ reserve_space fuel size s' ]
      ]

  abbrev pub rounds : CacheStorage lru → ℕ
  rounds s = suc (length (lru.entries s.cached_resources))

  -- After the file is written.
  unfoldable pub store_file :
      Outside
      → HostMetrics
      → ℕ
      → Option ℕ
      → UpstreamResourceHeaders
      → List ℕ
      → CacheStorage lru
      → Run (CachedResource × CacheStorage lru)
  unfolding reserve_space emit estimate
  store_file outside handles id expires_at headers file s = do
    let size = length file
    (reservation, s') ← reserve_space (rounds s) size s
    done (
      record {
        id = id;
        headers = headers;
        file = file;
        size = size;
        expires_at = expires_at;
        expires_at_timestamp = estimate outside expires_at;
        cache_eviction_count = handles.cache_eviction_count;
        cache_eviction_bytes = handles.cache_eviction_bytes;
        cache_disk_file_count = handles.cache_disk_file_count;
        cache_disk_bytes = handles.cache_disk_bytes;
        reservation = reservation;
      },
      emit lru (raise handles.cache_disk_bytes size)
          (emit lru (raise handles.cache_disk_file_count 1) s'),
    )

  unfoldable pub create_cached_resource :
      Outside
      → HostMetrics
      → ℕ
      → Option ℕ
      → UpstreamResourceHeaders
      → Body
      → CacheStorage lru
      → Run (Result UpstreamError CachedResource × CacheStorage lru)
  unfolding store_file
  create_cached_resource outside handles id expires_at headers body s =
      elim (outside.tempfile_in s.cache_dir) [
        | some error ↦ done (err (io error), s)
        | none ↦ elim (outside.copy body) [
          | err error ↦ done (err (io error), s)
          | ok file ↦ do
            (resource, s') ← store_file outside handles id expires_at headers file s
            done (ok resource, s')
        ]
      ]
