-- ===== src/Setup/Defs.antt =====
-- src/cache.rs, `CacheStorage::new`: the limits on files, and the empty storage.
use server.Cache.{CacheStorage, CachedResourceKey, CachedResourceKey-discrete}
use server.Config.{StorageConfig}
use server.Lru.{LruCache}
use server.Pool.{checked_add, checked_sub, new}
use server.Prelude.{
  ℕ, max, String, Option, none, some, [], ltb, leb, ◌==◌, if◌then◌else◌, Result, ok, err, Run, done,
  ◌>>=◌, unwrap,
}

-- The crate `rlimit`, as the process meets it: the soft and the hard limit on open files, and what
-- `increase_nofile_limit` returns.
pub record Limits : Type 0 where
  pub getrlimit : Result String (ℕ × ℕ)
  pub increase_nofile_limit : ℕ → Result String ℕ

-- The least soft limit that the configuration needs.
unfoldable pub min_soft_limit : StorageConfig → Option ℕ
min_soft_limit config = elim config.max_cache_files [
  | some max_cache_files ↦ checked_add max_cache_files config.min_non_cache_files
  | none ↦ checked_add config.min_non_cache_files (max config.min_cache_files 1)
]

-- The soft limit that the process then has.
unfoldable pub soft_limit : Limits → ℕ → ℕ → Result String ℕ
soft_limit limits original_soft_limit min_limit =
    if ltb original_soft_limit min_limit
    then limits.increase_nofile_limit min_limit
    else ok original_soft_limit

abbrev pub nonzero : Option ℕ → Option ℕ
nonzero none = none
nonzero (some n) = if n == 0 then none else some n

-- How many files the cache may hold. `usize` is 64 bits wide; `LruCache::new` takes no zero.
unfoldable pub max_files : StorageConfig → ℕ → Option ℕ
max_files config limit = nonzero (elim config.max_cache_files [
  | some max_cache_files ↦ some max_cache_files
  | none ↦ checked_sub limit config.min_non_cache_files
])

module _ (lru : LruCache CachedResourceKey ℕ CachedResourceKey-discrete) where
  unfoldable pub empty_storage : StorageConfig → ℕ → CacheStorage lru
  unfolding new
  empty_storage config n = record {
    cache_dir = config.dir;
    capacity_pool = new config.max_disk_capacity;
    cached_resources = lru.new n;
    cells = λ _. none;
    next_cell = 0;
    events = [];
  }

  -- `CacheStorage::new` once the soft limit is known.
  unfoldable pub with_limit :
      StorageConfig → Result String ℕ → Run (Result String (CacheStorage lru))
  unfolding max_files empty_storage
  with_limit config (err error) = done (err error)
  with_limit config (ok limit) = do
    n ← unwrap (max_files config limit)
    done (ok (empty_storage config n))

  -- `CacheStorage::new` once the limits are read.
  unfoldable pub within_limits :
      Limits → StorageConfig → ℕ → ℕ → Run (Result String (CacheStorage lru))
  unfolding min_soft_limit soft_limit with_limit
  within_limits limits config original_soft_limit hard_limit =
      unwrap (min_soft_limit config) >>= λ min_limit.
      if leb min_limit hard_limit
      then with_limit config (soft_limit limits original_soft_limit min_limit)
      else done (err "NOFILE hard rlimit is less than the minimum limit in the config")

  -- An error is `err`, a failed `unwrap` a panic.
  unfoldable pub new_storage : Limits → StorageConfig → Run (Result String (CacheStorage lru))
  unfolding within_limits
  new_storage limits config = elim limits.getrlimit [
    | err error ↦ done (err error)
    | ok (original_soft_limit, hard_limit) ↦
        within_limits limits config original_soft_limit hard_limit
  ]
