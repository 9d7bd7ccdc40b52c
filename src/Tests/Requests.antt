-- ===== src/Tests/Requests.antt =====
-- src/cache.rs: requests to a small cache.
use server.Cache.Claim.{IsValid, Claimed}
use server.Cache.Fill.{fetched}
use server.Cache.Renew.{peek, claim_cell-peek}
use server.Cache.Request.{Outcome, get_cached-Outcome}
use server.Cache.Space.{Made, reserve_space-Made}
use server.Cache.Total.{Answers, get-Answers}
use server.Cache.{
  CacheStorage, CachedResourceResponse, claim_cell, get, get_cached, new_cache, reserve_space,
}
use server.Metrics.{CacheRouteMetrics, new_route_metrics}
use server.Pool.{CacheCapacityReservation, u64_mod}
use server.Prelude.{ℕ, ◌<◌, ◌≡◌, Option, some, arith, Result, done}
use server.Routes.{match_route}
use server.Tests.World.{
  list_lru, option_cell, exact_tree, routes, routes-IsTied, world-Adds, storage, storage-IsValid,
  stocked, stocked-Books, stocked-length, world,
}
use server.Upstream.{UpstreamError}

small : 10 < u64_mod
small = omega arith

abbrev metrics : CacheRouteMetrics
unfolding new_route_metrics
metrics = new_route_metrics "host" "/a"

get-Answers_example :
    (response : Result UpstreamError (Option CachedResourceResponse)) × (s' : CacheStorage list_lru)
    × (get exact_tree list_lru option_cell (new_cache exact_tree "host" routes) world "/a" 5 storage
        ≡ done (response, s'))
    × IsValid list_lru 10 s'
    × Answers exact_tree list_lru option_cell
        (new_cache exact_tree "host" routes)
        world
        "/a"
        5
        10
        (match_route exact_tree routes "/a").0
        response
        storage
        s'
get-Answers_example =
    get-Answers exact_tree list_lru option_cell "host" routes world "/a" 5 storage small world-Adds
      routes-IsTied storage-IsValid

get_cached-Outcome_example :
    (response : Result UpstreamError (Option CachedResourceResponse)) × (s' : CacheStorage list_lru)
    × (get_cached exact_tree list_lru option_cell
          (new_cache exact_tree "host" routes)
          world
          metrics
          "/a"
          5
          (some 65)
          storage
        ≡ done (response, s'))
    × IsValid list_lru 10 s'
    × Outcome exact_tree list_lru option_cell world
        (some 65)
        10
        (record { host = (new_cache exact_tree "host" routes).host_key; path = "/a" })
        (peek list_lru
          (record { host = (new_cache exact_tree "host" routes).host_key; path = "/a" })
          5
          storage)
        (fetched world storage.cache_dir (world.upstream "/a"))
        response
        s'
get_cached-Outcome_example =
    get_cached-Outcome exact_tree list_lru option_cell (new_cache exact_tree "host" routes) world
      metrics (some 65) "/a" small 5 storage storage-IsValid

-- A file of 3 bytes, which has reserved 8, has to go for one of 4 bytes.
reserve_space-Made_example :
    (r : CacheCapacityReservation) × (s' : CacheStorage list_lru) × (reserve_space list_lru 2 4
        stocked
      ≡ done (r, s'))
    × Made list_lru 10 4 r stocked s'
reserve_space-Made_example =
    reserve_space-Made list_lru small 4 2 stocked stocked-Books stocked-length

claim_cell-peek_example :
    (cell : ℕ) × (s' : CacheStorage list_lru) × (claim_cell list_lru
        (record { host = "host"; path = "/a" })
        5
        storage
      ≡ done (cell, s'))
    × Claimed list_lru 10 (record { host = "host"; path = "/a" }) cell s'
    × (s'.cells cell ≡ peek list_lru (record { host = "host"; path = "/a" }) 5 storage)
    × (s'.cache_dir ≡ storage.cache_dir)
claim_cell-peek_example =
    claim_cell-peek list_lru small (record { host = "host"; path = "/a" }) 5 storage storage-IsValid
