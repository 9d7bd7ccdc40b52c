-- ===== src/Tasks/Tally.antt =====
-- src/cache.rs, `Cache::get` for many requests: the counters of the routes after any run.
use server.Cache.{CacheStorage, CachedResource, CachedResourceKey, CachedResourceKey-discrete, emit}
use server.Lru.{LruCache}
use server.Metrics.{Counter, increments}
use server.Pool.{CacheCapacityPool, CacheCapacityReservation}
use server.Prelude.{ℕ, ◌+◌, ◌≡◌, refl, sym, ◌∙◌, subst, ℕ_discrete, List, [], ◌++◌, if_pos, if_neg}
use server.Tasks.Credits.{AreNamed, IsRoute, IsNamed, NamedCells, IsSilent, credits, credited}
use server.Tasks.Defs.{Job, System}
use server.Tasks.Steps.{store, new_resource, Step, responds, Reach, here, next}
use server.Upstream.{UpstreamResourceHeaders}

module _ (lru : LruCache CachedResourceKey ℕ CachedResourceKey-discrete) where
  -- The counters of the routes stay, and the files count their evictions as such.
  abbrev pub Kept : CacheStorage lru → CacheStorage lru → Type 0
  Kept s st =
      ((c : Counter) → IsRoute c → increments c st.events ≡ increments c s.events)
      × NamedCells st.cells

  pub silent-Kept : (s st : CacheStorage lru) → NamedCells s.cells → IsSilent lru s st → Kept s st
  silent-Kept s st named (counts, lost) = (counts, λ d r full. named d r (lost d r full))

  pub same-Kept : (s : CacheStorage lru) → NamedCells s.cells → Kept s s
  same-Kept s named = ((λ c route. refl), named)

  pub store-Kept :
      (job : Job) (c : ℕ) (headers : UpstreamResourceHeaders) (file : List ℕ)
      (reservation : CacheCapacityReservation) (pool : CacheCapacityPool) (s : CacheStorage lru)
      → IsNamed job
      → NamedCells s.cells
      → Kept s (store lru job c headers file reservation (record s { capacity_pool = pool })).1
  unfolding store emit increments
  store-Kept job c headers file reservation pool s own named = (
    (λ d route. refl),
    λ d r full. elim (ℕ_discrete c d) [
      | yes p ↦
          let is : new_resource job headers file reservation ≡ r =
            cc (sym (if_pos (ℕ_discrete c d) p _ _) ∙ full) in
          subst (λ (x : CachedResource). AreNamed x.cache_eviction_count x.cache_eviction_bytes) is
            own
      | no p ↦ named d r (sym (if_neg (ℕ_discrete c d) p _ _) ∙ full)
    ],
  )

  -- What a step adds to the counters of the routes: that is for an answer.
  unfoldable pub earned : {s s' : System lru} → Step lru s s' → List (Counter × ℕ)
  earned (responds _ job _ result _ _) = credits job result
  earned _ = []

  -- The counters of the routes have gone up by `xs`.
  abbrev pub Raised : List (Counter × ℕ) → CacheStorage lru → CacheStorage lru → Type 0
  Raised xs s st =
      (c : Counter) → IsRoute c → increments c st.events ≡ credited c xs + increments c s.events

  abbrev Tallied : List (Counter × ℕ) → CacheStorage lru → CacheStorage lru → Type 0
  Tallied xs s st = Raised xs s st × NamedCells st.cells

  -- What the answers of a run add to the counters of the routes, the latest first.
  unfoldable pub answers : {s s' : System lru} → Reach lru s s' → List (Counter × ℕ)
  unfolding earned
  answers here = []
  answers (next reach st) = earned st ++ answers reach
