-- ===== src/Tasks/Single.antt =====
-- src/cache.rs, `Cache::get`, by itself and as one task while the others rest.
use server.Cache.Claim.{IsValid}
use server.Cache.Invariant.{Books}
use server.Cache.Renew.{claim_cell-peek}
use server.Cache.Request.{get_cached-Outcome}
use server.Cache.Settle.{release-held, release-lost}
use server.Cache.{
  Cache, CacheStorage, CachedResource, CachedResourceKey, CachedResourceKey-discrete,
  CachedResourceResponse, Outside, get_cached, holds_cell, release, respond, count_found,
}
use server.Lru.{LruCache, OnceCell}
use server.Metrics.{CacheRouteMetrics}
use server.Pool.{u64_mod}
use server.Prelude.{
  ℕ, ◌<◌, ◌≡◌, refl, sym, ap, ◌∙◌, subst, inl, inr, Option, none, some, [], ◌∷◌, String, Bool-cases,
  Result, ok, err, Run, done, ◌>>=◌, bind-done, done-pair, ℕ_discrete,
}
use server.Routes.{PathTree, CacheRouteRule}
use server.Tasks.Alone.{At, Quiet, system, go, keeps, lets_go}
use server.Tasks.Claimed.{claims-At}
use server.Tasks.Defs.{Job, Task, System, idle, responding}
use server.Tasks.Invariant.{entries}
use server.Tasks.Rooms.{PopsNothing}
use server.Tasks.Steps.{responds, Reach, here, AllIdle, at_phase, counted}
use server.Upstream.{UpstreamError}
use server.Tasks.Filled.{job, fill_cell-FillsAs}
use server.Tasks.Filling.{FillsAs-At, begins-At, unlocks-At}

module _ (tree : PathTree (CacheRouteRule × String))
    (lru : LruCache CachedResourceKey ℕ CachedResourceKey-discrete) (once : OnceCell)
    (cache : Cache tree) (outside : Outside) (m : CacheRouteMetrics) (path : String) (now : ℕ)
    (expires_after : Option ℕ) where
  abbrev its_job : Job
  its_job = job tree lru once cache outside m path now expires_after

  pub counted-respond :
      (result : Result (Option UpstreamError) CachedResource) (s : CacheStorage lru)
      → counted lru its_job result s ≡ (respond tree lru once m outside result s).1
  unfolding counted respond count_found
  counted-respond (err none) s = refl
  counted-respond (err (some error)) s = refl
  counted-respond (ok r) s = refl

  -- The task answers, and lets go of its cell as `release` does.
  leaves-At :
      (start : System lru) (i c : ℕ) (result : Result (Option UpstreamError) CachedResource)
      (s s' : CacheStorage lru)
      → release lru c (counted lru its_job result s) ≡ done s'
      → At lru start i (at_phase its_job (responding c result)) s
      → At lru start i (at_phase its_job idle) s'
  unfolding release
  leaves-At start i c result s s' ran at =
      let s1 = counted lru its_job result s in
      let t : Task = record { job = its_job; phase = idle; drops = c ∷ [] } in
      let at1 : At lru start i t s1 =
        go lru start i (at_phase its_job (responding c result)) t s s1
          (λ tasks own others. responds i its_job c result own refl) at in
      elim (Bool-cases (holds_cell (entries lru s1) c)) [
        | inl held ↦
            let same : s1 ≡ s' = cc (release-held lru s1 c held, ran) in
            subst (At lru start i (at_phase its_job idle)) same
              (keeps lru start i t c [] s1 refl (inl held) at1)
        | inr lost ↦
            lets_go lru start i t c [] s1 s' refl (λ held. cc (held, lost))
              (λ held. elim held [ inl q ↦ absurd (cc q) | inr m ↦ absurd m ])
              (sym (release-lost lru s1 c lost) ∙ ran) at1
      ]

  all_idle :
      (start : System lru) (i : ℕ) (tasks : ℕ → Task) (s : CacheStorage lru)
      → tasks i ≡ at_phase its_job idle
      → Quiet lru start i tasks
      → AllIdle lru (system lru start i tasks s)
  all_idle start i tasks s own others j = elim (ℕ_discrete i j) [
    | yes p ↦
        subst (λ n. ((tasks n).phase ≡ idle) × ((tasks n).drops ≡ [])) p
          (ap (λ (x : Task). x.phase) own, ap (λ (x : Task). x.drops) own)
    | no p ↦ others j p
  ]

  -- From tasks at rest, the task `i` can take the request by itself to an answer whose response is
  -- `response`, and on to a system at rest with the storage `st`.
  abbrev pub Realises :
      System lru
      → ℕ
      → Result UpstreamError (Option CachedResourceResponse)
      → CacheStorage lru
      → Type 0
  Realises start i response st =
      (c : ℕ) × (result : Result (Option UpstreamError) CachedResource) × (mid : System lru) × Reach
        lru start mid
      × (mid.tasks i ≡ at_phase its_job (responding c result))
      × ((respond tree lru once m outside result mid.storage).0 ≡ response)
      × (end : System lru) × Reach lru mid end
      × AllIdle lru end
      × (end.storage ≡ st)

  -- From a valid storage, a capacity below 2^64 and tasks at rest, where popping an empty cache
  -- changes nothing: `get_cached`, the request by itself, ends without a panic; and one task, while
  -- all others rest, can take the steps of the tasks to its response, and then to a system at rest
  -- with just the storage that `get_cached` leaves, its counters included.
  pub get_cached-Realises :
      {capacity : ℕ} (start : System lru) (i : ℕ)
      → capacity < u64_mod
      → IsValid lru capacity start.storage
      → AllIdle lru start
      → PopsNothing lru
      → (response : Result UpstreamError (Option CachedResourceResponse)) × (st : CacheStorage lru)
        × (get_cached tree lru once cache outside m path now expires_after start.storage
            ≡ done (response, st))
        × Realises start i response st
  unfolding get_cached
  get_cached-Realises {capacity} start i bounded valid rest pops =
      let k : CachedResourceKey = record { host = cache.host_key; path = path } in
      let (response, st, ran, _, _) =
        get_cached-Outcome tree lru once cache outside m expires_after path bounded now
          start.storage valid in
      let (c, s1, claims, front, _, _) = claim_cell-peek lru bounded k now start.storage valid in
      let books = subst (λ l. Books lru capacity none l s1) (sym front.front) front.books in
      let (result, s2, filled, way) =
        fill_cell-FillsAs tree lru once cache outside m path now expires_after bounded c s1 books in
      let (answered, s3) = respond tree lru once m outside result s2 in
      let answers : CacheStorage lru
          → Run (Result UpstreamError (Option CachedResourceResponse) × CacheStorage lru) =
        λ s4. done (answered, s4) in
      let parts : get_cached tree lru once cache outside m path now expires_after start.storage
          ≡ release lru c s3 >>= answers =
        rw (claims, get_cached) (rw filled refl) in
      let (s4, released, is) =
        bind-done (release lru c s3) answers (response, st) (sym parts ∙ ran) in
      let (same_response, same_storage) = done-pair answered response s4 st is in
      let (tasks, reach, own, others) =
        FillsAs-At tree lru once cache outside m path now expires_after bounded start valid rest
          pops i c s1 result s2 way
          (unlocks-At tree lru once cache outside m path now expires_after bounded start valid rest
            pops i c s1
            (claims-At lru start i its_job c start.storage s1 valid claims (
              begins-At tree lru once cache outside m path now expires_after bounded start valid
                rest pops i))) in
      let mid = system lru start i tasks s2 in
      let counts = counted-respond result s2 in
      let (tasks2, reach2, own2, others2) =
        leaves-At mid i c result s2 s4
          (subst (λ (y : CacheStorage lru). release lru c y ≡ done s4) (sym counts) released)
          (tasks, here, own, others) in
      (
        response,
        st,
        ran,
        (
          c,
          result,
          mid,
          reach,
          own,
          same_response,
          system lru mid i tasks2 s4,
          reach2,
          all_idle mid i tasks2 s4 own2 others2,
          same_storage,
        ),
      )
