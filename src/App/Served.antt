-- ===== src/App/Served.antt =====
-- src/app.rs: `get_resource` on every request.
use server.App.Defs.{
  AppError, AppState, HttpResponse, Request, cache_for_host, host, hostname, map_option,
  no_upstream_server,
}
use server.App.Handler.{Headers, answer, get_from, get_resource}
use server.Cache.Claim.{IsValid}
use server.Cache.Sent.{Adds}
use server.Cache.Total.{Answers, get-Answers}
use server.Cache.{
  Cache, CacheStorage, CachedResourceKey, CachedResourceKey-discrete, CachedResourceResponse,
  Outside, new_cache, get,
}
use server.Lru.{LruCache, OnceCell}
use server.Pool.{u64_mod}
use server.Prelude.{
  ℕ, ◌<◌, ◌≡◌, inl, inr, refl, sym, subst, String, Option, none, some, Result-cases, Result, ok,
  err, done,
}
use server.Routes.Matching.{IsTied}
use server.Routes.{PathTree, CacheRoutes, CacheRouteRule, match_route}
use server.Upstream.{UpstreamError}

module _ (tree : PathTree (CacheRouteRule × String)) where
  -- The cache was made by `Cache::new` for a table that is tied to its paths.
  abbrev pub IsMade : Cache tree → Type 0
  IsMade cache =
      (host_key : String) × (routes : CacheRoutes tree) × (cache ≡ new_cache tree host_key routes)
      × IsTied tree routes

  -- So were all caches of the state.
  abbrev pub AreMade : AppState tree → Type 0
  AreMade state =
      (name : Option String) (cache : Cache tree)
      → cache_for_host tree state name ≡ some cache
      → IsMade cache

  -- The clock can add the age of the rule that the path matches in the cache of the host.
  abbrev pub ClockAdds : Outside → ℕ → AppState tree → Request → Type 0
  ClockAdds outside now state request =
      (value : Option String) (cache : Cache tree)
      → host request.host_values ≡ ok value
      → cache_for_host tree state (map_option hostname value) ≡ some cache
      → Adds outside now (match_route tree cache.rules request.path).0

  module _ (lru : LruCache CachedResourceKey ℕ CachedResourceKey-discrete) (once : OnceCell)
      (h : Headers) (outside : Outside) (now capacity : ℕ) where
    -- What a request is answered, once its host is known.
    abbrev pub ServedBy :
        AppState tree
        → Option String
        → Option (Cache tree)
        → String
        → Result AppError HttpResponse
        → CacheStorage lru
        → CacheStorage lru
        → Type 0
    ServedBy state name none path result s s' = (result ≡ err (no_upstream_server name)) × (s' ≡ s)
    ServedBy state name (some cache) path result s s' =
        (response : Result UpstreamError (Option CachedResourceResponse)) × (result
          ≡ answer tree lru once h state.metadata path response)
        × Answers tree lru once cache outside path now capacity
            (match_route tree cache.rules path).0 response s s'

    abbrev pub Served :
        AppState tree
        → Request
        → Result AppError (Option String)
        → Result AppError HttpResponse
        → CacheStorage lru
        → CacheStorage lru
        → Type 0
    Served state request (err error) result s s' = (result ≡ err error) × (s' ≡ s)
    Served state request (ok value) result s s' =
        ServedBy state (map_option hostname value)
          (cache_for_host tree state (map_option hostname value)) request.path result s s'

    made-Answers :
        (host_key : String) (routes : CacheRoutes tree) (path : String) (s : CacheStorage lru)
        → capacity < u64_mod
        → Adds outside now (match_route tree (new_cache tree host_key routes).rules path).0
        → IsTied tree routes
        → IsValid lru capacity s
        → (response : Result UpstreamError (Option CachedResourceResponse)) × (s' : CacheStorage
            lru)
          × (get tree lru once (new_cache tree host_key routes) outside path now s
              ≡ done (response, s'))
          × IsValid lru capacity s'
          × Answers tree lru once
              (new_cache tree host_key routes)
              outside
              path
              now
              capacity
              (match_route tree (new_cache tree host_key routes).rules path).0
              response
              s
              s'
    unfolding new_cache
    made-Answers host_key routes path s bounded clock tied valid =
        get-Answers tree lru once host_key routes outside path now s bounded clock tied valid

    get_from-Served :
        (state : AppState tree) (name : Option String) (found : Option (Cache tree)) (path : String)
        (s : CacheStorage lru)
        → capacity < u64_mod
        → ((cache : Cache tree)
            → found ≡ some cache
            → Adds outside now (match_route tree cache.rules path).0)
        → ((cache : Cache tree) → found ≡ some cache → IsMade cache)
        → IsValid lru capacity s
        → (result : Result AppError HttpResponse) × (s' : CacheStorage lru) × (get_from tree lru
              once h state name found outside path now s
            ≡ done (result, s'))
          × IsValid lru capacity s'
          × ServedBy state name found path result s s'
    unfolding get_from
    get_from-Served state name none path s bounded clock made valid =
        (err (no_upstream_server name), s, refl, valid, (refl, refl))
    get_from-Served state name (some cache) path s bounded clock made valid =
        let (host_key, routes, is, tied) = made cache refl in
        let (response, s', ran, valid', answers) =
          subst
            (λ c.
              (response : Result UpstreamError (Option CachedResourceResponse)) × (s' : CacheStorage
                lru)
              × (get tree lru once c outside path now s ≡ done (response, s'))
              × IsValid lru capacity s'
              × Answers tree lru once c outside path now capacity (match_route tree c.rules path).0
                  response s s')
            (sym is)
            (made-Answers host_key routes path s bounded
              (subst (λ c. Adds outside now (match_route tree c.rules path).0) is
                (clock cache refl))
              tied valid) in
        (
          answer tree lru once h state.metadata path response,
          s',
          rw (ran, get_from),
          valid',
          (response, refl, answers),
        )

    pub get_resource-Served :
        (state : AppState tree) (request : Request) (s : CacheStorage lru)
        → capacity < u64_mod
        → ClockAdds outside now state request
        → AreMade state
        → IsValid lru capacity s
        → (result : Result AppError HttpResponse) × (s' : CacheStorage lru) × (get_resource tree lru
              once h state request outside now s
            ≡ done (result, s'))
          × IsValid lru capacity s'
          × Served state request (host request.host_values) result s s'
    unfolding get_resource
    get_resource-Served state request s bounded clock made valid =
        elim (Result-cases (host request.host_values)) [
          | inr (error, e) ↦ (
            err error,
            s,
            rw (e, get_resource),
            valid,
            subst (λ r. Served state request r (err error) s s) (sym e) (refl, refl),
          )
          | inl (value, e) ↦
              let (result, s', ran, valid', served) =
                get_from-Served state (map_option hostname value)
                  (cache_for_host tree state (map_option hostname value)) request.path s bounded
                  (λ cache. clock value cache e) (made (map_option hostname value)) valid in
              (
                result,
                s',
                rw (e, get_resource) ran,
                valid',
                subst (λ r. Served state request r result s s') (sym e) served,
              )
        ]
