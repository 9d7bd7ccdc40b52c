-- ===== src/Tasks/Defs.antt =====
-- Where the task of a request stands in `Cache::get`, and what it holds there.
use server.Cache.{
  HostMetrics, CacheStorage, CachedResource, CachedResourceKey, CachedResourceKey-discrete, Outside,
}
use server.Lru.{LruCache}
use server.Metrics.{CacheRouteMetrics}
use server.Prelude.{
  ℕ, ◌≡◌, ◌⊎◌, ◌∷◌, Bool, true, Option, none, some, List, [], ℕ_discrete, ite, Result,
}
use server.Upstream.{UpstreamError, UpstreamResourceHeaders}

-- What a request brings along: the locals of `get` above the lock.
pub record Job : Type 0 where
  pub key : CachedResourceKey
  pub now : ℕ
  pub expires_after : Option ℕ
  pub handles : HostMetrics
  pub route_metrics : CacheRouteMetrics
  pub outside : Outside

-- A number is the cell that the task holds an `Arc` of. `claimed`, `reserving true` and `taking`
-- hold the lock of the cache; from `fetching` to `taking` the task runs the closure of
-- `get_or_try_init`, so it has the permit of the cell. `panicked` is a panic of the task.
pub data Phase : Type 0 where
  idle : Phase
  wants_lock : Phase
  claimed : ℕ → Phase
  waiting : ℕ → Phase
  fetching : ℕ → Phase
  reserving : Bool → ℕ → UpstreamResourceHeaders → List ℕ → Phase
  wants_eviction : ℕ → UpstreamResourceHeaders → List ℕ → Phase
  taking : ℕ → UpstreamResourceHeaders → List ℕ → Phase
  responding : ℕ → Result (Option UpstreamError) CachedResource → Phase
  panicked : Phase

-- `drops`: the cells whose `Arc` the task lets go of before it goes on.
pub record Task : Type 0 where
  pub job : Job
  pub phase : Phase
  pub drops : List ℕ

abbrev pub has_lock : Phase → Option (Unit {0})
has_lock (claimed _) = some tt
has_lock (reserving true _ _ _) = some tt
has_lock (taking _ _ _) = some tt
has_lock _ = none

abbrev pub permit : Phase → Option ℕ
permit (fetching c) = some c
permit (reserving _ c _ _) = some c
permit (wants_eviction c _ _) = some c
permit (taking c _ _) = some c
permit _ = none

-- The cell that the task's local `cell` is.
abbrev pub cell_of : Phase → Option ℕ
cell_of (claimed c) = some c
cell_of (waiting c) = some c
cell_of (fetching c) = some c
cell_of (reserving _ c _ _) = some c
cell_of (wants_eviction c _ _) = some c
cell_of (taking c _ _) = some c
cell_of (responding c _) = some c
cell_of _ = none

abbrev pub Among : ℕ → List ℕ → Type 0
Among c [] = ⊥
Among c (d ∷ ds) = (d ≡ c) ⊎ Among c ds

-- The task has an `Arc` of the cell.
abbrev pub Holds : Task → ℕ → Type 0
Holds t c = (cell_of t.phase ≡ some c) ⊎ Among c t.drops

abbrev pub set_task {ℓ} : {A : Type ℓ} → (ℕ → A) → ℕ → A → ℕ → A
set_task tasks i t j = ite (ℕ_discrete i j) t (tasks j)

module _ (lru : LruCache CachedResourceKey ℕ CachedResourceKey-discrete) where
  -- What the tasks share, and the tasks by their numbers.
  pub record System : Type 0 where
    pub storage : CacheStorage lru
    pub tasks : ℕ → Task
