-- ===== src/Tasks/Filling.antt =====
-- src/cache.rs, `get_or_try_init` in `Cache::get`, for a task alone.
use server.Cache.Claim.{IsValid}
use server.Cache.Fill.{fetched}
use server.Cache.{
  Cache, CacheStorage, CachedResource, CachedResourceKey, CachedResourceKey-discrete, Outside,
  rounds,
}
use server.Lru.{LruCache, OnceCell}
use server.Metrics.{CacheRouteMetrics}
use server.Pool.{u64_mod}
use server.Prelude.{
  ℕ, ◌<◌, ◌≡◌, ◌≢◌, refl, ap, ◌∙◌, subst, Option, none, some, List, String, false, Result, ok, err,
}
use server.Routes.{PathTree, CacheRouteRule}
use server.Tasks.Alone.{At, Quiet, go, nobody}
use server.Tasks.Defs.{
  Job, Phase, Task, System, idle, wants_lock, claimed, waiting, fetching, responding, permit,
}
use server.Tasks.Rooms.{PopsNothing, makes_room}
use server.Tasks.Steps.{
  begin, unlocks, finds, inits, fetches, here, AllIdle, at_phase, store, fetched_phase,
}
use server.Upstream.{UpstreamError, UpstreamResource, UpstreamResourceHeaders}
use server.Tasks.Filled.{job, FillsAs, has, fails, stores}

module _ (tree : PathTree (CacheRouteRule × String))
    (lru : LruCache CachedResourceKey ℕ CachedResourceKey-discrete) (once : OnceCell)
    (cache : Cache tree) (outside : Outside) (m : CacheRouteMetrics) (path : String) (now : ℕ)
    (expires_after : Option ℕ) where
  abbrev its_job : Job
  its_job = job tree lru once cache outside m path now expires_after

  module _ {capacity : ℕ} (bounded : capacity < u64_mod) (start : System lru)
      (valid : IsValid lru capacity start.storage) (rest : AllIdle lru start)
      (pops : PopsNothing lru) (i : ℕ) where
    abbrev pub AtPhase : Phase → CacheStorage lru → Type 0
    AtPhase phase st = At lru start i (at_phase its_job phase) st

    abbrev its_answer : Result UpstreamError (Option UpstreamResource)
    its_answer = outside.upstream path

    pub begins-At : AtPhase wants_lock start.storage
    begins-At =
        let old = (start.tasks i).job in
        let own : start.tasks i ≡ at_phase old idle =
          ap (λ p. record { job = old; phase = p; drops = (start.tasks i).drops }) (rest i).0
          ∙ ap (λ (d : List ℕ). record { job = old; phase = idle; drops = d }) (rest i).1 in
        go lru start i (at_phase old idle) (at_phase its_job wants_lock) start.storage start.storage
          (λ tasks is others. begin i its_job old is refl) (start.tasks, here, own, λ j p. rest j)

    pub unlocks-At : (c : ℕ) (s : CacheStorage lru) → AtPhase (claimed c) s → AtPhase (waiting c) s
    unlocks-At c s = go lru start i _ _ s s (λ tasks own others. unlocks i its_job c own refl)

    finds-At :
        (c : ℕ) (s : CacheStorage lru) (r : CachedResource)
        → s.cells c ≡ some r
        → AtPhase (waiting c) s
        → AtPhase (responding c (ok r)) s
    finds-At c s r full =
        go lru start i _ _ s s (λ tasks own others. finds i its_job c r own full refl)

    fetches-At :
        (c : ℕ) (s : CacheStorage lru)
        (got : Result (Option UpstreamError) (UpstreamResourceHeaders × List ℕ))
        → s.cells c ≡ none
        → fetched outside s.cache_dir its_answer ≡ got
        → AtPhase (waiting c) s
        → AtPhase (fetched_phase c got) s
    fetches-At c s got empty is at =
        let free : (tasks : ℕ → Task)
            → tasks i ≡ at_phase its_job (waiting c)
            → Quiet lru start i tasks
            → (j : ℕ) → permit (tasks j).phase ≢ some c =
          λ tasks own others j held.
            cc (nobody lru start i permit (waiting c) tasks its_job refl refl own others j, held) in
        subst
          (λ (x : Result (Option UpstreamError) (UpstreamResourceHeaders × List ℕ)).
            AtPhase (fetched_phase c x) s)
          is
          (go lru start i _ _ s s (λ tasks own others. fetches i its_job c own refl)
            (go lru start i _ (at_phase its_job (fetching c)) s s
              (λ tasks own others. inits i its_job c own empty (free tasks own others) refl) at))

    -- So the task comes from the wait for the cell to its result.
    pub FillsAs-At :
        (c : ℕ) (s : CacheStorage lru) (result : Result (Option UpstreamError) CachedResource)
        (s' : CacheStorage lru)
        → FillsAs tree lru once cache outside m path now expires_after c s result s'
        → AtPhase (waiting c) s
        → AtPhase (responding c result) s'
    unfolding fetched_phase store
    FillsAs-At c s _ _ (has r full) at = finds-At c s r full at
    FillsAs-At c s _ _ (fails error empty failed) at = fetches-At c s (err error) empty failed at
    FillsAs-At c s _ _ (stores headers file reservation s1 empty got room) at =
        makes_room lru bounded start valid rest pops i its_job c headers file (rounds lru s) false s
          s1 reservation room empty (fetches-At c s (ok (headers, file)) empty got at)
