-- ===== src/Cache/Storage.antt =====
-- src/cache.rs: the state that all requests share, `CacheStorage` with the metrics recorder, and
-- what happens when a cached resource is dropped.
use server.Cache.Types.{CachedResourceKey, CachedResourceKey-discrete, CachedResource, is_stale}
use server.Lru.{LruCache}
use server.Metrics.{Event, lower}
use server.Pool.{CacheCapacityPool, return_to_pool}
use server.Prelude.{
  ℕ, ◌+◌, String, Option, none, some, List, [], ◌∷◌, ite, ℕ_discrete, if◌then◌else◌, Run, done,
  ◌>>=◌, unwrap,
}

-- A function of the cells, changed at one cell.
abbrev pub set_cell {ℓ} : {A : Type ℓ} → (ℕ → A) → ℕ → A → ℕ → A
set_cell cells c a d = ite (ℕ_discrete c d) a (cells d)

module _ (lru : LruCache CachedResourceKey ℕ CachedResourceKey-discrete) where
  -- The cache holds `Arc<OnceCell<Arc<CachedResource>>>`: the number of a cell, which `cells` maps
  -- to its contents. Cells from `next_cell` on are not allocated.
  pub record CacheStorage : Type 0 where
    pub cache_dir : String
    pub capacity_pool : CacheCapacityPool
    pub cached_resources : lru.State
    pub cells : ℕ → Option CachedResource
    pub next_cell : ℕ
    pub events : List Event

  unfoldable pub emit : Event → CacheStorage → CacheStorage
  emit event s = record s { events = event ∷ s.events }

  -- `Drop for CachedResource`, then that of its field `_reservation`.
  unfoldable pub drop_resource : CachedResource → CacheStorage → Run CacheStorage
  unfolding emit return_to_pool
  drop_resource resource s =
      let s1 = emit (lower resource.cache_disk_file_count 1) s in
      let s2 = emit (lower resource.cache_disk_bytes resource.size) s1 in
      do
        pool ← unwrap (return_to_pool resource.reservation s2.capacity_pool)
        done (record s2 { capacity_pool = pool })

  -- The last `Arc` of a cell goes.
  unfoldable pub drop_cell : ℕ → CacheStorage → Run CacheStorage
  unfolding drop_resource
  drop_cell c s = elim (s.cells c) [
    | none ↦ done s
    | some resource ↦ drop_resource resource (record s { cells = set_cell s.cells c none })
  ]

  unfoldable pub drop_entries : List (CachedResourceKey × ℕ) → CacheStorage → Run CacheStorage
  unfolding drop_cell
  drop_entries [] s = done s
  drop_entries ((_, c) ∷ es) s = do s' ← drop_cell c s; drop_entries es s'

  -- The block of `get` under the lock, in two parts. First `get_or_insert_mut_ref`: the key's cell,
  -- a new one if the key is absent, which may push another entry out.
  unfoldable pub insert_cell : CachedResourceKey → CacheStorage → Run (ℕ × CacheStorage)
  unfolding drop_entries
  insert_cell cache_key s =
      let (cell, dropped, cache) =
        lru.get_or_insert_mut_ref cache_key s.next_cell s.cached_resources in
      do
        s' ←
            drop_entries dropped
              (record s { cached_resources = cache; next_cell = s.next_cell + 1 })
        done (cell, s')

  -- Then the cell is replaced if its resource has expired.
  unfoldable pub renew_cell : CachedResourceKey → ℕ → ℕ → CacheStorage → Run (ℕ × CacheStorage)
  unfolding drop_cell is_stale
  renew_cell cache_key now cell s =
      if is_stale (s.cells cell) now
      then (do
        s' ← drop_cell cell (record s {
          cached_resources = lru.assign cache_key s.next_cell s.cached_resources;
          next_cell = s.next_cell + 1;
        })
        done (s.next_cell, s'))
      else done (cell, s)

  unfoldable pub claim_cell : CachedResourceKey → ℕ → CacheStorage → Run (ℕ × CacheStorage)
  unfolding insert_cell renew_cell
  claim_cell cache_key now s = do
    (cell, s') ← insert_cell cache_key s
    renew_cell cache_key now cell s'
