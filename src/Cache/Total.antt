-- ===== src/Cache/Total.antt =====
-- `Cache::get` on every rule.
use mathlib.Core.List.{map}
use text.Mathlib.Text.{◌==◌ as str_eq}
use server.Cache.Claim.{IsValid}
use server.Cache.Counts.{emit-CountsOnly}
use server.Cache.Fill.{fetched}
use server.Cache.Get.{Cache, new_cache, index, metrics_for, pass_on, serve_enabled, serve, get}
use server.Cache.Renew.{peek}
use server.Cache.Request.{Outcome, get_cached-Outcome}
use server.Cache.Sent.{Adds, AddsAge, Passes, pass_on-Passes}
use server.Cache.Settle.{Books-counts}
use server.Cache.Storage.{CacheStorage, emit}
use server.Cache.Types.{
  CachedResourceKey, CachedResourceKey-discrete, CachedResourceResponse, Outside,
}
use server.Lru.{LruCache, OnceCell}
use server.Metrics.{Counter, CacheRouteMetrics, increment, new_route_metrics}
use server.Pool.{u64_mod}
use server.Prelude.{
  ℕ, ◌<◌, ◌≡◌, refl, ◌∙◌, String, Option, none, some, List, [], ◌∷◌, arith, true, Bool-cases,
  Result, ok, done, inl, inr,
}
use server.Routes.Matching.{IsTied}
use server.Routes.{
  PathTree, CacheRoutes, CacheRouteRule, CacheMaxAgeRule, enabled, disabled, cache_forever,
  cache_for, cache_never, match_route, matched, contains,
}
use server.Upstream.{UpstreamError}

index-map :
    (f : String → CacheRouteMetrics) (paths : List String) (p : String)
    → contains paths p ≡ true
    → (m : CacheRouteMetrics) × (index (map (λ q. (q, f q)) paths) p ≡ some m)
unfolding contains index
index-map f [] p h = cc
index-map f (q ∷ paths) p h = elim (Bool-cases (str_eq q p)) [
  | inl here ↦ (f q, rw here)
  | inr other ↦
      let (m, found) = index-map f paths p (ground (arith, h, other)) in (m, rw other found)
]

module _ (tree : PathTree (CacheRouteRule × String)) (host_key : String)
    (routes : CacheRoutes tree) where
  -- The metrics of every pattern that the table can give exist.
  metrics_for-matched :
      (o : Option (CacheRouteRule × String))
      → ((v : CacheRouteRule × String) → o ≡ some v → contains routes.route_paths v.1 ≡ true)
      → (m : CacheRouteMetrics) × (metrics_for tree
            (new_cache tree host_key routes)
            (matched tree routes o).1
          ≡ some m)
  unfolding metrics_for new_cache matched
  metrics_for-matched none h = (new_route_metrics host_key "**", refl)
  metrics_for-matched (some (rule, p)) h =
      index-map (new_route_metrics host_key) routes.route_paths p (h (rule, p) refl)

  pub metrics_for-match_route :
      (path : String)
      → IsTied tree routes
      → (m : CacheRouteMetrics) × (metrics_for tree
            (new_cache tree host_key routes)
            (match_route tree routes path).1
          ≡ some m)
  unfolding match_route IsTied
  metrics_for-match_route path tied =
      metrics_for-matched (tree.find routes.route_rules path)
        (λ v e. tied v.0 v.1 (tree.find_holds routes.route_rules path v e))

pub IsValid-emit :
    (lru : LruCache CachedResourceKey ℕ CachedResourceKey-discrete) (c : Counter) (n : ℕ)
    (s : CacheStorage lru) {capacity : ℕ}
    → IsValid lru capacity s
    → IsValid lru capacity (emit lru (increment c n) s)
unfolding emit
IsValid-emit lru c n s h = record {
  books = Books-counts lru s _ h.books (emit-CountsOnly lru c n s);
  roomy = h.roomy;
  bounded = h.bounded;
}

module _ (tree : PathTree (CacheRouteRule × String))
    (lru : LruCache CachedResourceKey ℕ CachedResourceKey-discrete) (once : OnceCell)
    (cache : Cache tree) (outside : Outside) (path : String) (now : ℕ) where
  abbrev Response : Type 0
  Response = Result UpstreamError (Option CachedResourceResponse)

  abbrev key : CachedResourceKey
  key = record { host = cache.host_key; path = path }

  pub get-run :
      (m : CacheRouteMetrics) (s : CacheStorage lru)
      → metrics_for tree cache (match_route tree cache.rules path).1 ≡ some m
      → get tree lru once cache outside path now s
        ≡ serve tree lru once cache outside m path now
            (match_route tree cache.rules path).0
            (emit lru (increment m.request_count 1) s)
  unfolding get
  get-run m s e = rw (e, get)

  -- What `get` answers for a maximum age, from a storage `s`, and the storage `s'` that it leaves.
  unfoldable pub AnswersAge :
      ℕ → CacheMaxAgeRule → Response → CacheStorage lru → CacheStorage lru → Type 0
  AnswersAge capacity cache_forever response s s' =
      Outcome tree lru once outside none capacity key (peek lru key now s)
        (fetched outside s.cache_dir (outside.upstream path)) response s'
  AnswersAge capacity (cache_for duration) response s s' =
      (expires_after : ℕ) × (outside.instant_checked_add now duration ≡ some expires_after)
      × Outcome tree lru once outside (some expires_after) capacity key (peek lru key now s)
          (fetched outside s.cache_dir (outside.upstream path)) response s'
  AnswersAge capacity cache_never response s s' =
      Passes (outside.upstream path) response × (s'.cached_resources ≡ s.cached_resources)

  -- And by a rule.
  unfoldable pub Answers :
      ℕ → CacheRouteRule → Response → CacheStorage lru → CacheStorage lru → Type 0
  unfolding AnswersAge
  Answers capacity disabled response s s' =
      (response ≡ ok none) × (s'.cached_resources ≡ s.cached_resources)
  Answers capacity (enabled rule) response s s' = AnswersAge capacity rule.max_age response s s'

  Answers-emit :
      (capacity : ℕ) (c : Counter) (age : CacheMaxAgeRule) (response : Response)
      (s s' : CacheStorage lru)
      → AnswersAge capacity age response (emit lru (increment c 1) s) s'
      → AnswersAge capacity age response s s'
  unfolding AnswersAge emit peek
  Answers-emit capacity c cache_forever response s s' h = h
  Answers-emit capacity c (cache_for duration) response s s' h = h
  Answers-emit capacity c cache_never response s s' h = h

  module _ {capacity : ℕ} (bounded : capacity < u64_mod) (m : CacheRouteMetrics) where
    serve_age-Answers :
        (age : CacheMaxAgeRule) (s : CacheStorage lru)
        → AddsAge outside now age
        → IsValid lru capacity s
        → (response : Response) × (s' : CacheStorage lru) × (serve_enabled tree lru once cache
              outside m path now age s
            ≡ done (response, s'))
          × IsValid lru capacity s'
          × AnswersAge capacity age response s s'
    unfolding serve_enabled AnswersAge emit
    serve_age-Answers cache_forever s clock h =
        get_cached-Outcome tree lru once cache outside m none path bounded now s h
    serve_age-Answers (cache_for duration) s (t, e) h =
        let (response, s', ran, valid, outcome) =
          get_cached-Outcome tree lru once cache outside m (some t) path bounded now s h in
        (response, s', rw (e, serve_enabled) ran, valid, (t, e, outcome))
    serve_age-Answers cache_never s clock h = (
      pass_on tree lru once (outside.upstream path),
      emit lru (increment m.never_count 1) s,
      refl,
      IsValid-emit lru m.never_count 1 s h,
      (pass_on-Passes tree lru once (outside.upstream path), refl),
    )

    serve-Answers :
        (rule : CacheRouteRule) (s : CacheStorage lru)
        → Adds outside now rule
        → IsValid lru capacity s
        → (response : Response) × (s' : CacheStorage lru) × (serve tree lru once cache outside m
              path now rule s
            ≡ done (response, s'))
          × IsValid lru capacity s'
          × Answers capacity rule response s s'
    unfolding serve Answers emit
    serve-Answers disabled s clock h = (
      ok none,
      emit lru (increment m.unrouted_count 1) s,
      refl,
      IsValid-emit lru m.unrouted_count 1 s h,
      (refl, refl),
    )
    serve-Answers (enabled rule) s clock h = serve_age-Answers rule.max_age s clock h

    serve-emitted :
        (rule : CacheRouteRule) (s : CacheStorage lru)
        → Adds outside now rule
        → IsValid lru capacity s
        → (response : Response) × (s' : CacheStorage lru) × (serve tree lru once cache outside m
              path now rule
              (emit lru (increment m.request_count 1) s)
            ≡ done (response, s'))
          × IsValid lru capacity s'
          × Answers capacity rule response s s'
    unfolding Answers emit peek
    serve-emitted disabled s clock h =
        serve-Answers disabled _ clock (IsValid-emit lru m.request_count 1 s h)
    serve-emitted (enabled rule) s clock h =
        let (response, s', ran, valid, answers) =
          serve-Answers (enabled rule) _ clock (IsValid-emit lru m.request_count 1 s h) in
        (
          response,
          s',
          ran,
          valid,
          Answers-emit capacity m.request_count rule.max_age response s s' answers,
        )

-- Every request to a cache that was made for a table of routes, whose patterns are all among its
-- paths, ends, on a valid storage of a capacity below 2^64, without a panic and without running out
-- of rounds, if the clock can add the age of the rule that the path matches, where that has one, to
-- the time of the request. It leaves a valid storage: no capacity is lost, every gauge shows what
-- the cache holds, and the cache has no more entries than its bound. The answer is the one that the
-- rule calls for: nothing for a disabled route, what the upstream gives for a resource that is
-- never cached, and else the file in the cache or a new one.
pub get-Answers :
    (tree : PathTree (CacheRouteRule × String))
    (lru : LruCache CachedResourceKey ℕ CachedResourceKey-discrete) (once : OnceCell)
    (host_key : String) (routes : CacheRoutes tree) (outside : Outside) (path : String) (now : ℕ)
    (s : CacheStorage lru) {capacity : ℕ}
    → capacity < u64_mod
    → Adds outside now (match_route tree routes path).0
    → IsTied tree routes
    → IsValid lru capacity s
    → (response : Result UpstreamError (Option CachedResourceResponse)) × (s' : CacheStorage lru)
      × (get tree lru once (new_cache tree host_key routes) outside path now s
          ≡ done (response, s'))
      × IsValid lru capacity s'
      × Answers tree lru once
          (new_cache tree host_key routes)
          outside
          path
          now
          capacity
          (match_route tree routes path).0
          response
          s
          s'
unfolding new_cache
get-Answers tree lru once host_key routes outside path now s bounded clock tied h =
    let cache = new_cache tree host_key routes in
    let (m, found) = metrics_for-match_route tree host_key routes path tied in
    let (response, s', ran, valid, answers) =
      serve-emitted tree lru once cache outside path now bounded m (match_route tree routes path).0
        s clock h in
    (response, s', get-run tree lru once cache outside path now m s found ∙ ran, valid, answers)
