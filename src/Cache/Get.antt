-- ===== src/Cache/Get.antt =====
-- src/cache.rs: `Cache`, and its `get`.
use mathlib.Core.List.{map}
use text.Mathlib.Text.{◌==◌ as str_eq}
use server.Cache.Body.{body_from_cached_resource}
use server.Cache.Create.{HostMetrics, create_cached_resource}
use server.Cache.Storage.{CacheStorage, emit, drop_cell, claim_cell, set_cell}
use server.Cache.Types.{
  CachedResourceKey, CachedResourceKey-discrete, CachedResource, hit, miss, never,
  CachedResourceResponse, Outside,
}
use server.Lru.{LruCache, OnceCell}
use server.Metrics.{
  CacheRouteMetrics, increment, new_route_metrics, eviction_count, eviction_bytes, disk_file_count,
  disk_bytes,
}
use server.Prelude.{
  ℕ, String, Bool, false, ◌||◌, Option, none, some, List, [], ◌∷◌, ◌==◌, if◌then◌else◌, Result, ok,
  err, Run, done, ◌>>=◌, unwrap,
}
use server.Routes.{
  PathTree, CacheRoutes, CacheRouteRule, CacheMaxAgeRule, enabled, disabled, cache_forever,
  cache_for, cache_never, match_route,
}
use server.Upstream.{UpstreamError, UpstreamResource, io}

-- Indexing a `HashMap`: `none` is a panic.
unfoldable pub index {ℓ} : {A : Type ℓ} → List (String × A) → String → Option A
index [] k = none
index ((j, a) ∷ rest) k = if str_eq j k then some a else index rest k

-- Is the cell still in the cache?
unfoldable pub holds_cell {ℓ} : {K : Type ℓ} → List (K × ℕ) → ℕ → Bool
holds_cell [] c = false
holds_cell ((_, d) ∷ es) c = d == c || holds_cell es c

module _ (tree : PathTree (CacheRouteRule × String)) where
  -- The storage and the upstream are the state and a part of `Outside`.
  pub record Cache : Type 0 where
    pub host_key : String
    pub rules : CacheRoutes tree
    pub handles : HostMetrics
    pub route_metrics : List (String × CacheRouteMetrics)
    pub default_route_metrics : CacheRouteMetrics

  -- `Cache::new`.
  unfoldable pub new_cache : String → CacheRoutes tree → Cache
  unfolding new_route_metrics
  new_cache host_key rules = record {
    host_key = host_key;
    rules = rules;
    handles = record {
      cache_eviction_count = record { name = eviction_count; host = host_key; path = none };
      cache_eviction_bytes = record { name = eviction_bytes; host = host_key; path = none };
      cache_disk_file_count = record { name = disk_file_count; host = host_key };
      cache_disk_bytes = record { name = disk_bytes; host = host_key };
    };
    route_metrics = map (λ path. (path, new_route_metrics host_key path)) rules.route_paths;
    default_route_metrics = new_route_metrics host_key "**";
  }

  unfoldable pub get_path_pattern : Cache → String → Option String
  get_path_pattern cache path = (match_route tree cache.rules path).1

  -- The metrics of a pattern; `none` is a panic.
  unfoldable pub metrics_for : Cache → Option String → Option CacheRouteMetrics
  unfolding index
  metrics_for cache none = some cache.default_route_metrics
  metrics_for cache (some pattern) = index cache.route_metrics pattern

module _ (lru : LruCache CachedResourceKey ℕ CachedResourceKey-discrete) where
  -- `get` returns, and drops its `Arc` of the cell: the last one if the cache evicted the cell.
  unfoldable pub release : ℕ → CacheStorage lru → Run (CacheStorage lru)
  unfolding holds_cell drop_cell
  release cell s =
      if holds_cell (lru.entries s.cached_resources) cell then done s else drop_cell lru cell s

module _ (tree : PathTree (CacheRouteRule × String))
    (lru : LruCache CachedResourceKey ℕ CachedResourceKey-discrete) (once : OnceCell) where
  abbrev pub Response : Type 0
  Response = Result UpstreamError (Option CachedResourceResponse)

  -- The closure of `get_or_try_init`, from the upstream's answer on.
  unfoldable pub fill :
      Cache tree
      → Outside
      → Option ℕ
      → Result UpstreamError (Option UpstreamResource)
      → CacheStorage lru
      → Run (Result (Option UpstreamError) CachedResource × CacheStorage lru)
  unfolding create_cached_resource
  fill cache outside expires_after (ok none) s = done (err none, s)
  fill cache outside expires_after (err error) s = done (err (some error), s)
  fill cache outside expires_after (ok (some resource)) s = do
    (file, s') ←
        create_cached_resource lru outside cache.handles outside.new_v4 expires_after
          resource.headers resource.body s
    elim file [ ok file ↦ done (ok file, s') | err error ↦ done (err (some error), s') ]

  -- `cell.get_or_try_init(…)`: the contents of the cell after the call are stored in it.
  unfoldable pub fill_cell :
      Cache tree
      → Outside
      → String
      → Option ℕ
      → ℕ
      → CacheStorage lru
      → Run (Result (Option UpstreamError) CachedResource × CacheStorage lru)
  unfolding fill
  fill_cell cache outside path expires_after cell s = do
    (result, contents, s') ←
        once.get_or_try_init (s.cells cell)
          (fill cache outside expires_after (outside.upstream path)) s
    done (result, record s' { cells = set_cell s'.cells cell contents })

  -- The counters of a miss, which this request has filled, or of a hit.
  unfoldable pub count_found :
      CacheRouteMetrics → Outside → CachedResource → CacheStorage lru → CacheStorage lru
  unfolding emit
  count_found m outside resource s =
      if resource.id == outside.new_v4
      then emit lru (increment m.miss_bytes resource.size) (emit lru (increment m.miss_count 1) s)
      else emit lru (increment m.hit_bytes resource.size) (emit lru (increment m.hit_count 1) s)

  -- The response, or the error of `body_from_cached_resource`.
  unfoldable pub found_response : Outside → CachedResource → Response
  unfolding body_from_cached_resource
  found_response outside resource = elim (body_from_cached_resource outside resource) [
    | err error ↦ err (io error)
    | ok body ↦ ok (
        some (record {
          resource = record { headers = resource.headers; body = body };
          outcome = if outside.new_v4 == resource.id then miss else hit;
          expires_at = resource.expires_at_timestamp;
        }))
  ]

  -- From the match on the result of `get_or_try_init` on.
  unfoldable pub respond :
      CacheRouteMetrics
      → Outside
      → Result (Option UpstreamError) CachedResource
      → CacheStorage lru
      → Response × CacheStorage lru
  unfolding emit count_found found_response
  respond m outside (err (some error)) s = (err error, emit lru (increment m.error_count 1) s)
  respond m outside (err none) s = (ok none, emit lru (increment m.not_found_count 1) s)
  respond m outside (ok resource) s =
      (found_response outside resource, count_found m outside resource s)

  unfoldable pub get_cached :
      Cache tree
      → Outside
      → CacheRouteMetrics
      → String
      → ℕ
      → Option ℕ
      → CacheStorage lru
      → Run (Response × CacheStorage lru)
  unfolding claim_cell fill_cell respond release
  get_cached cache outside m path now expires_after s = do
    (cell, s1) ← claim_cell lru (record { host = cache.host_key; path = path }) now s
    (result, s2) ← fill_cell cache outside path expires_after cell s1
    let (response, s3) = respond m outside result s2
    s4 ← release lru cell s3
    done (response, s4)

  -- The answer of an upstream whose resource is not kept.
  unfoldable pub pass_on : Result UpstreamError (Option UpstreamResource) → Response
  pass_on (err error) = err error
  pass_on (ok none) = ok none
  pass_on (ok (some resource)) =
      ok (some (record { resource = resource; outcome = never; expires_at = none }))

  -- `get` from the match on `max_age` on.
  unfoldable pub serve_enabled :
      Cache tree
      → Outside
      → CacheRouteMetrics
      → String
      → ℕ
      → CacheMaxAgeRule
      → CacheStorage lru
      → Run (Response × CacheStorage lru)
  unfolding get_cached pass_on emit
  serve_enabled cache outside m path now cache_forever s =
      get_cached cache outside m path now none s
  serve_enabled cache outside m path now (cache_for duration) s = do
    expires_after ← unwrap (outside.instant_checked_add now duration)
    get_cached cache outside m path now (some expires_after) s
  serve_enabled cache outside m path now cache_never s =
      done (pass_on (outside.upstream path), emit lru (increment m.never_count 1) s)

  unfoldable pub serve :
      Cache tree
      → Outside
      → CacheRouteMetrics
      → String
      → ℕ
      → CacheRouteRule
      → CacheStorage lru
      → Run (Response × CacheStorage lru)
  unfolding serve_enabled emit
  serve cache outside m path now disabled s =
      done (ok none, emit lru (increment m.unrouted_count 1) s)
  serve cache outside m path now (enabled rule) s =
      serve_enabled cache outside m path now rule.max_age s

  unfoldable pub get :
      Cache tree → Outside → String → ℕ → CacheStorage lru → Run (Response × CacheStorage lru)
  unfolding metrics_for serve emit
  get cache outside path now s = do
    let (rule, pattern) = match_route tree cache.rules path
    m ← unwrap (metrics_for tree cache pattern)
    serve cache outside m path now rule (emit lru (increment m.request_count 1) s)
