-- ===== src/Tasks/Steps.antt =====
-- The steps of the tasks. A step makes at most one access to the capacity pool. What a step does
-- besides, the code may do one after the other: each such step says so.
use mathlib.Core.List.{map}
use server.Cache.Fill.{fetched}
use server.Cache.{
  count_eviction, estimate, holds_cell, set_cell, CacheStorage, CachedResource, CachedResourceKey,
  CachedResourceKey-discrete, drop_cell, emit, is_stale,
}
use server.Lru.{LruCache}
use server.Metrics.{increment, raise}
use server.Pool.{CacheCapacityReservation, reserve, reserve_up_to}
use server.Prelude.{
  ℕ, ◌+◌, ◌≡◌, ◌≢◌, ◌⊎◌, Bool, true, false, Option, none, some, List, [], ◌∷◌, length,
  if◌then◌else◌, ◌==◌, Result, ok, err, Run, done, panic, stuck,
}
use server.Tasks.Defs.{
  Job, Phase, Task, System, idle, wants_lock, claimed, waiting, fetching, reserving, wants_eviction,
  taking, responding, panicked, has_lock, permit, Holds, set_task,
}
use server.Upstream.{UpstreamError, UpstreamResourceHeaders}

-- The resource that `create_cached_resource` returns.
abbrev pub new_resource :
    Job → UpstreamResourceHeaders → List ℕ → CacheCapacityReservation → CachedResource
new_resource job headers file reservation = record {
  id = job.outside.new_v4;
  headers = headers;
  file = file;
  size = length file;
  expires_at = job.expires_after;
  expires_at_timestamp = estimate job.outside job.expires_after;
  cache_eviction_count = job.handles.cache_eviction_count;
  cache_eviction_bytes = job.handles.cache_eviction_bytes;
  cache_disk_file_count = job.handles.cache_disk_file_count;
  cache_disk_bytes = job.handles.cache_disk_bytes;
  reservation = reservation;
}

abbrev pub at_phase : Job → Phase → Task
at_phase job phase = record { job = job; phase = phase; drops = [] }

-- From the upstream's answer and the temporary file on.
unfoldable pub fetched_phase :
    ℕ → Result (Option UpstreamError) (UpstreamResourceHeaders × List ℕ) → Phase
fetched_phase cell (err error) = responding cell (err error)
fetched_phase cell (ok (headers, file)) = reserving false cell headers file

module _ (lru : LruCache CachedResourceKey ℕ CachedResourceKey-discrete) where
  -- The block under the lock, up to the clone of the cell. The cells whose `Arc`s it lets go of are
  -- left to the task.
  unfoldable pub claim : Job → CacheStorage lru → Task × CacheStorage lru
  unfolding is_stale
  claim job s =
      let (cell, dropped, cache) =
        lru.get_or_insert_mut_ref job.key s.next_cell s.cached_resources in
      let s1 = record s { cached_resources = cache; next_cell = s.next_cell + 1 } in
      let old = map (λ (e : CachedResourceKey × ℕ). e.1) dropped in
      if is_stale (s.cells cell) job.now
      then (
        record { job = job; phase = claimed s1.next_cell; drops = cell ∷ old },
        record s1 {
          cached_resources = lru.assign job.key s1.next_cell s1.cached_resources;
          next_cell = s1.next_cell + 1;
        },
      )
      else (record { job = job; phase = claimed cell; drops = old }, s1)

  -- `pop_lru` and the counters, under the lock.
  unfoldable pub pop :
      Job → ℕ → UpstreamResourceHeaders → List ℕ → CacheStorage lru → Task × CacheStorage lru
  unfolding count_eviction
  pop job cell headers file s =
      let (evicted, cache) = lru.pop_lru s.cached_resources in
      let s1 = record s { cached_resources = cache } in
      elim evicted [
        | none ↦ (record { job = job; phase = taking cell headers file; drops = [] }, s1)
        | some (_, c) ↦ (
          record { job = job; phase = reserving true cell headers file; drops = c ∷ [] },
          count_eviction lru (s.cells c) s1,
        )
      ]

  -- What follows a reservation, in the same step: the two gauges, and then the cell is set. The lock
  -- is let go of before the gauges.
  unfoldable pub store :
      Job
      → ℕ
      → UpstreamResourceHeaders
      → List ℕ
      → CacheCapacityReservation
      → CacheStorage lru
      → Task × CacheStorage lru
  unfolding emit
  store job cell headers file reservation s =
      let r = new_resource job headers file reservation in
      let s1 =
        emit lru (raise job.handles.cache_disk_bytes (length file))
          (emit lru (raise job.handles.cache_disk_file_count 1) s) in
      (
        record { job = job; phase = responding cell (ok r); drops = [] },
        record s1 { cells = set_cell s1.cells cell (some r) },
      )

  -- One round of the loop: without the lock the task has to wait for it before it evicts. With the
  -- lock, the refusal by the pool and the eviction are one step, and so are a reservation and what
  -- follows it.
  unfoldable pub try_reserve :
      Job → Bool → ℕ → UpstreamResourceHeaders → List ℕ → CacheStorage lru → Task × CacheStorage lru
  try_reserve job locked cell headers file s =
      let (reserved, pool) = reserve s.capacity_pool (length file) in
      elim reserved [
        | some reservation ↦
            store job cell headers file reservation (record s { capacity_pool = pool })
        | none ↦
            if locked
            then pop job cell headers file s
            else (record { job = job; phase = wants_eviction cell headers file; drops = [] }, s)
      ]

  -- `reserve_up_to`, and the end of the loop.
  unfoldable pub take_all :
      Job → ℕ → UpstreamResourceHeaders → List ℕ → CacheStorage lru → Task × CacheStorage lru
  unfolding store reserve_up_to
  take_all job cell headers file s =
      let (reservation, pool) = reserve_up_to s.capacity_pool (length file) in
      store job cell headers file reservation (record s { capacity_pool = pool })

  -- The counters of the answer.
  unfoldable pub counted :
      Job → Result (Option UpstreamError) CachedResource → CacheStorage lru → CacheStorage lru
  unfolding emit
  counted job (err none) s = emit lru (increment job.route_metrics.not_found_count 1) s
  counted job (err (some error)) s = emit lru (increment job.route_metrics.error_count 1) s
  counted job (ok r) s =
      if r.id == job.outside.new_v4
      then emit lru (increment job.route_metrics.miss_bytes r.size)
          (emit lru (increment job.route_metrics.miss_count 1) s)
      else emit lru (increment job.route_metrics.hit_bytes r.size)
          (emit lru (increment job.route_metrics.hit_count 1) s)

  -- After the last `Arc` of a cell went; a panic ends the task.
  unfoldable pub dropped :
      Task → CacheStorage lru → Run (CacheStorage lru) → Task × CacheStorage lru
  dropped t s (done s') = (t, s')
  dropped t s panic = (record t { phase = panicked }, s)
  dropped t s stuck = (record t { phase = panicked }, s)

  abbrev pub update : System lru → ℕ → Task × CacheStorage lru → System lru
  update s i (t, storage) = record { storage = storage; tasks = set_task s.tasks i t }

  -- Tokio's mutex is free, and nobody initialises the cell.
  abbrev pub LockFree : System lru → Type 0
  LockFree s = (j : ℕ) → has_lock (s.tasks j).phase ≡ none

  abbrev pub PermitFree : System lru → ℕ → Type 0
  PermitFree s c = (j : ℕ) → permit (s.tasks j).phase ≢ some c

  -- Some `Arc` of the cell is left: in the cache, or with a task.
  abbrev pub Referenced : System lru → ℕ → Type 0
  Referenced s c =
      (holds_cell (lru.entries s.storage.cached_resources) c ≡ true)
      ⊎ ((j : ℕ) × Holds (s.tasks j) c)

  pub data Step (s s' : System lru) : Type 0 where
    -- a request comes
    begin :
        (i : ℕ) (job old : Job)
        → s.tasks i ≡ at_phase old idle
        → s' ≡ update s i (at_phase job wants_lock, s.storage)
        → Step s s'
    -- `lock().await` returns, and the block under the lock runs
    claims :
        (i : ℕ) (job : Job)
        → s.tasks i ≡ at_phase job wants_lock
        → LockFree s
        → s' ≡ update s i (claim job s.storage)
        → Step s s'
    -- the guard goes
    unlocks :
        (i : ℕ) (job : Job) (c : ℕ)
        → s.tasks i ≡ at_phase job (claimed c)
        → s' ≡ update s i (at_phase job (waiting c), s.storage)
        → Step s s'
    -- `get_or_try_init` on a filled cell
    finds :
        (i : ℕ) (job : Job) (c : ℕ) (r : CachedResource)
        → s.tasks i ≡ at_phase job (waiting c)
        → s.storage.cells c ≡ some r
        → s' ≡ update s i (at_phase job (responding c (ok r)), s.storage)
        → Step s s'
    -- `get_or_try_init` on an empty cell: the closure begins
    inits :
        (i : ℕ) (job : Job) (c : ℕ)
        → s.tasks i ≡ at_phase job (waiting c)
        → s.storage.cells c ≡ none
        → PermitFree s c
        → s' ≡ update s i (at_phase job (fetching c), s.storage)
        → Step s s'
    -- the upstream has answered, and the file is written
    fetches :
        (i : ℕ) (job : Job) (c : ℕ)
        → s.tasks i ≡ at_phase job (fetching c)
        → s'
          ≡ update s i (
            at_phase job (
                fetched_phase c
                  (fetched job.outside s.storage.cache_dir (job.outside.upstream job.key.path))),
            s.storage,
          )
        → Step s s'
    reserves :
        (i : ℕ) (job : Job) (locked : Bool) (c : ℕ) (headers : UpstreamResourceHeaders)
        (file : List ℕ)
        → s.tasks i ≡ at_phase job (reserving locked c headers file)
        → s' ≡ update s i (try_reserve job locked c headers file s.storage)
        → Step s s'
    -- `lock().await` of the loop returns
    evicts :
        (i : ℕ) (job : Job) (c : ℕ) (headers : UpstreamResourceHeaders) (file : List ℕ)
        → s.tasks i ≡ at_phase job (wants_eviction c headers file)
        → LockFree s
        → s' ≡ update s i (pop job c headers file s.storage)
        → Step s s'
    takes :
        (i : ℕ) (job : Job) (c : ℕ) (headers : UpstreamResourceHeaders) (file : List ℕ)
        → s.tasks i ≡ at_phase job (taking c headers file)
        → s' ≡ update s i (take_all job c headers file s.storage)
        → Step s s'
    -- the answer is counted, in one step with all that follows. For a file that is the opening of it
    -- again, which shares nothing: the step stands for a return and for a cancellation there
    responds :
        (i : ℕ) (job : Job) (c : ℕ) (result : Result (Option UpstreamError) CachedResource)
        → s.tasks i ≡ at_phase job (responding c result)
        → s'
          ≡ update s i
              (record { job = job; phase = idle; drops = c ∷ [] }, counted job result s.storage)
        → Step s s'
    -- the client has gone: the future is dropped where it waits
    cancels_lock :
        (i : ℕ) (job : Job)
        → s.tasks i ≡ at_phase job wants_lock
        → s' ≡ update s i (at_phase job idle, s.storage)
        → Step s s'
    cancels :
        (i : ℕ) (job : Job) (c : ℕ) (phase : Phase)
        → s.tasks i ≡ at_phase job phase
        → (phase ≡ waiting c)
          ⊎ (phase ≡ fetching c)
          ⊎ ((headers : UpstreamResourceHeaders) × (file : List ℕ) × (phase
                ≡ wants_eviction c headers file))
        → s' ≡ update s i (record { job = job; phase = idle; drops = c ∷ [] }, s.storage)
        → Step s s'
    -- an `Arc` goes that is not the last
    drops_one :
        (i c : ℕ) (rest : List ℕ)
        → (s.tasks i).drops ≡ c ∷ rest
        → s' ≡ update s i (record (s.tasks i) { drops = rest }, s.storage)
        → Referenced s' c
        → Step s s'
    -- the last `Arc` goes: the two gauges and the return of the capacity are one step
    drops_last :
        (i c : ℕ) (rest : List ℕ)
        → (s.tasks i).drops ≡ c ∷ rest
        → ¬ Referenced (update s i (record (s.tasks i) { drops = rest }, s.storage)) c
        → s'
          ≡ update s i
              (dropped (record (s.tasks i) { drops = rest }) s.storage (drop_cell lru c s.storage))
        → Step s s'

  pub data Reach (s : System lru) : System lru → Type 0 where
    here : Reach s s
    next : {t u : System lru} → Reach s t → Step t u → Reach s u

  -- Before the first request.
  abbrev pub AllIdle : System lru → Type 0
  AllIdle s = (i : ℕ) → ((s.tasks i).phase ≡ idle) × ((s.tasks i).drops ≡ [])
