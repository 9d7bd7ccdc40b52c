-- ===== src/Tests/Single.antt =====
-- src/cache.rs, `Cache::get`: a request on an empty storage, by itself and as a task.
use server.Cache.{CacheStorage, CachedResourceResponse, get_cached, new_cache}
use server.Cache.Totals.{get_last?-cases}
use server.Prelude.{◌≡◌, sym, ap, ◌∙◌, inl, inr, Option, some, Result, done}
use server.Lru.{drop_last}
use server.Tasks.Rooms.{PopsNothing}
use server.Tasks.Single.{Realises, get_cached-Realises}
use server.Tests.Tasks.{at_rest, at_rest-AllIdle, metrics, small}
use server.Tests.World.{exact_tree, list_lru, option_cell, routes, storage-IsValid, world}
use server.Upstream.{UpstreamError}

list_lru-PopsNothing : PopsNothing list_lru
unfolding list_lru drop_last
list_lru-PopsNothing l none_popped = elim (get_last?-cases l.1) [
  | inl (nil, _) ↦ ap (λ es. (l.0, es)) (ap drop_last nil ∙ sym nil)
  | inr (e, last, _) ↦ absurd (cc (none_popped, last))
]

get_cached-Realises_example :
    (response : Result UpstreamError (Option CachedResourceResponse)) × (st : CacheStorage list_lru)
    × (get_cached exact_tree list_lru option_cell
          (new_cache exact_tree "host" routes)
          world
          metrics
          "/a"
          5
          (some 65)
          at_rest.storage
        ≡ done (response, st))
    × Realises exact_tree list_lru option_cell
        (new_cache exact_tree "host" routes)
        world
        metrics
        "/a"
        5
        (some 65)
        at_rest
        0
        response
        st
get_cached-Realises_example =
    get_cached-Realises exact_tree list_lru option_cell (new_cache exact_tree "host" routes) world
      metrics "/a" 5 (some 65) at_rest 0 small storage-IsValid at_rest-AllIdle list_lru-PopsNothing
