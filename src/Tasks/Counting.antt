-- ===== src/Tasks/Counting.antt =====
-- src/cache.rs, `Cache::get` by itself: what a request adds to the counters of the routes.
use server.Cache.Claim.{IsValid}
use server.Cache.Invariant.{Books}
use server.Cache.Renew.{claim_cell-peek}
use server.Cache.Request.{get_cached-Outcome}
use server.Cache.{
  Cache, CacheStorage, CachedResource, CachedResourceKey, CachedResourceKey-discrete,
  CachedResourceResponse, Outside, get_cached, release, respond,
}
use server.Lru.{LruCache, OnceCell}
use server.Metrics.{Counter, CacheRouteMetrics}
use server.Pool.{u64_mod}
use server.Prelude.{
  ℕ, ◌+◌, ◌<◌, ◌≡◌, refl, sym, ap, ◌∙◌, subst, String, Option, none, some, List, [], ◌∷◌, Result,
  Run, done, ◌>>=◌, bind-done, done-pair,
}
use server.Routes.{
  PathTree, CacheRouteRule, CacheMaxAgeRule, enabled, disabled, cache_forever, cache_for,
  cache_never,
}
use server.Tasks.Credits.{IsNamed, AreNamed, NamedCells, credits, credited, counted-credits}
use server.Tasks.Defs.{Job}
use server.Tasks.Filled.{job, FillsAs, has, fails, stores, fill_cell-FillsAs}
use server.Tasks.Silent.{Kept-then, claim_cell-Kept, release-Kept, reserve_space-Kept}
use server.Tasks.Single.{counted-respond}
use server.Tasks.Steps.{counted, store}
use server.Tasks.Tally.{Kept, Raised, same-Kept, store-Kept}
use server.Upstream.{UpstreamError}

module _ (tree : PathTree (CacheRouteRule × String))
    (lru : LruCache CachedResourceKey ℕ CachedResourceKey-discrete) (once : OnceCell)
    (cache : Cache tree) (outside : Outside) (m : CacheRouteMetrics) (path : String) (now : ℕ)
    (expires_after : Option ℕ) where
  abbrev its_job : Job
  its_job = job tree lru once cache outside m path now expires_after

  -- What a request for a path that is cached adds, with that response.
  abbrev pub IsTally :
      Result UpstreamError (Option CachedResourceResponse) → List (Counter × ℕ) → Type 0
  IsTally response xs =
      (result : Result (Option UpstreamError) CachedResource) × (st : CacheStorage lru) × ((respond
          tree lru once m outside result st).0
        ≡ response)
      × (xs ≡ credits its_job result)

  FillsAs-Kept :
      (c : ℕ) (s : CacheStorage lru) (result : Result (Option UpstreamError) CachedResource)
      (s' : CacheStorage lru)
      → IsNamed its_job
      → NamedCells s.cells
      → FillsAs tree lru once cache outside m path now expires_after c s result s'
      → Kept lru s s'
  FillsAs-Kept c s _ _ own named (has r full) = same-Kept lru s named
  FillsAs-Kept c s _ _ own named (fails error empty failed) = same-Kept lru s named
  FillsAs-Kept c s _ _ own named (stores headers file reservation s1 empty got room) =
      let first = reserve_space-Kept lru its_job _ _ s s1 reservation room named in
      Kept-then lru s s1 (store lru its_job c headers file reservation s1).1 first
        (store-Kept lru its_job c headers file reservation s1.capacity_pool s1 own first.1)

  pub get_cached-IsTally :
      {capacity : ℕ} (s : CacheStorage lru)
      → capacity < u64_mod
      → IsValid lru capacity s
      → IsNamed its_job
      → NamedCells s.cells
      → (response : Result UpstreamError (Option CachedResourceResponse)) × (s' : CacheStorage lru)
        × (get_cached tree lru once cache outside m path now expires_after s ≡ done (response, s'))
        × (xs : List (Counter × ℕ)) × IsTally response xs
        × Raised lru xs s s'
  unfolding get_cached
  get_cached-IsTally {capacity} s bounded valid own named =
      let k : CachedResourceKey = record { host = cache.host_key; path = path } in
      let (response, s', ran, _, _) =
        get_cached-Outcome tree lru once cache outside m expires_after path bounded now s valid in
      let (c, s1, claims, front, _, _) = claim_cell-peek lru bounded k now s valid in
      let books = subst (λ l. Books lru capacity none l s1) (sym front.front) front.books in
      let (result, s2, filled, way) =
        fill_cell-FillsAs tree lru once cache outside m path now expires_after bounded c s1 books in
      let (answered, s3) = respond tree lru once m outside result s2 in
      let answers : CacheStorage lru
          → Run (Result UpstreamError (Option CachedResourceResponse) × CacheStorage lru) =
        λ s4. done (answered, s4) in
      let parts : get_cached tree lru once cache outside m path now expires_after s
          ≡ release lru c s3 >>= answers =
        rw (claims, get_cached) (rw filled refl) in
      let (s4, released, is) =
        bind-done (release lru c s3) answers (response, s') (sym parts ∙ ran) in
      let (same_response, same_storage) = done-pair answered response s4 s' is in
      let counts = counted-respond tree lru once cache outside m path now expires_after result s2 in
      let first = claim_cell-Kept lru its_job k now c s s1 claims named in
      let second = FillsAs-Kept c s1 result s2 own first.1 way in
      let before = Kept-then lru s s1 s2 first second in
      let s3' = counted lru its_job result s2 in
      let third = (λ (d : Counter). counted-credits lru d its_job result s2) in
      let last =
        release-Kept lru its_job c s3' s4
          (subst (λ (y : CacheStorage lru). release lru c y ≡ done s4) (sym counts) released)
          (subst NamedCells (sym (third m.miss_count).1) before.1) in
      (
        response,
        s',
        ran,
        credits its_job result,
        (result, s2, same_response, refl),
        subst (Raised lru (credits its_job result) s) same_storage (λ d route.
            last.0 d route
            ∙ (third d).0
            ∙ ap (λ n. credited d (credits its_job result) + n) (before.0 d route)),
      )

module _ (tree : PathTree (CacheRouteRule × String))
    (lru : LruCache CachedResourceKey ℕ CachedResourceKey-discrete) (once : OnceCell)
    (cache : Cache tree) (outside : Outside) (path : String) (now : ℕ) (m : CacheRouteMetrics) where
  abbrev Response : Type 0
  Response = Result UpstreamError (Option CachedResourceResponse)

  -- What a request adds that has been counted as one, by the rule of its path.
  abbrev pub IsTallyAge : CacheMaxAgeRule → Response → List (Counter × ℕ) → Type 0
  IsTallyAge cache_forever response xs =
      IsTally tree lru once cache outside m path now none response xs
  IsTallyAge (cache_for duration) response xs =
      (t : ℕ) × (outside.instant_checked_add now duration ≡ some t)
      × IsTally tree lru once cache outside m path now (some t) response xs
  IsTallyAge cache_never response xs = xs ≡ (m.never_count, 1) ∷ []

  abbrev pub IsTallyBy : CacheRouteRule → Response → List (Counter × ℕ) → Type 0
  IsTallyBy disabled response xs = xs ≡ (m.unrouted_count, 1) ∷ []
  IsTallyBy (enabled rule) response xs = IsTallyAge rule.max_age response xs

  module _ {capacity : ℕ} (bounded : capacity < u64_mod)
      (own : AreNamed cache.handles.cache_eviction_count cache.handles.cache_eviction_bytes)
      (s : CacheStorage lru) (valid : IsValid lru capacity s) (named : NamedCells s.cells) where
    abbrev Counts :
        Run (Response × CacheStorage lru) → (Response → List (Counter × ℕ) → Type 0) → Type 0
    Counts run tallies =
        (response : Response) × (s' : CacheStorage lru) × (run ≡ done (response, s'))
        × (xs : List (Counter × ℕ)) × tallies response xs
        × Raised lru xs s s'
