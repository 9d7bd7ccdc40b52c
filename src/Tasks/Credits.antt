-- ===== src/Tasks/Credits.antt =====
-- src/cache.rs, `Cache::get` for many requests: what the answers add to the counters of the routes.
use server.Cache.{
  CacheStorage, CachedResource, CachedResourceKey, CachedResourceKey-discrete, count_eviction,
  drop_cell, drop_resource, emit,
}
use server.Lru.{LruCache}
use server.Metrics.{
  Counter, Counter-discrete, CounterName, Event, increment, increments, eviction_count,
  eviction_bytes,
}
use server.Pool.{return_to_pool}
use server.Prelude.{
  ℕ, ◌+◌, ◌≡◌, refl, sym, ap, ◌∙◌, inl, inr, arith, ite, if_pos, if_neg, ℕ_discrete, Option, none,
  some, List, [], ◌∷◌, ◌++◌, Bool, true, false, Bool-cases, Option-cases, Result, ok, err, unwrap,
  ◌==◌, if◌then◌else◌,
}
use server.Tasks.Defs.{Job, Task}
use server.Tasks.Steps.{counted, dropped}
use server.Upstream.{UpstreamError}

abbrev pub is_eviction : CounterName → Bool
is_eviction eviction_count = true
is_eviction eviction_bytes = true
is_eviction _ = false

-- The counter is one of a route's.
abbrev pub IsRoute : Counter → Type 0
IsRoute c = is_eviction c.name ≡ false

-- The handles for evictions are such.
abbrev pub AreNamed : Counter → Counter → Type 0
AreNamed count bytes = (is_eviction count.name ≡ true) × (is_eviction bytes.name ≡ true)

abbrev pub IsNamed : Job → Type 0
IsNamed job = AreNamed job.handles.cache_eviction_count job.handles.cache_eviction_bytes

abbrev pub NamedCells : (ℕ → Option CachedResource) → Type 0
NamedCells cells =
    (d : ℕ) (r : CachedResource)
    → cells d ≡ some r
    → AreNamed r.cache_eviction_count r.cache_eviction_bytes

-- What an answer adds to which counters.
unfoldable pub credits : Job → Result (Option UpstreamError) CachedResource → List (Counter × ℕ)
credits job (err none) = (job.route_metrics.not_found_count, 1) ∷ []
credits job (err (some error)) = (job.route_metrics.error_count, 1) ∷ []
credits job (ok r) =
    if r.id == job.outside.new_v4
    then (job.route_metrics.miss_count, 1) ∷ (job.route_metrics.miss_bytes, r.size) ∷ []
    else (job.route_metrics.hit_count, 1) ∷ (job.route_metrics.hit_bytes, r.size) ∷ []

unfoldable pub credited : Counter → List (Counter × ℕ) → ℕ
unfolding Counter-discrete
credited c [] = 0
credited c ((d, n) ∷ rest) = ite (Counter-discrete d c) n 0 + credited c rest

pub credited-append :
    (c : Counter) (xs ys : List (Counter × ℕ))
    → credited c (xs ++ ys) ≡ credited c xs + credited c ys
unfolding credited
credited-append c [] ys = omega arith
credited-append c (x ∷ xs) ys = omega (arith, credited-append c xs ys)

-- An eviction is no affair of a route's counters.
increments-eviction :
    (c d : Counter) (n : ℕ) (events : List Event)
    → IsRoute c
    → is_eviction d.name ≡ true
    → increments c (increment d n ∷ events) ≡ increments c events
unfolding increments
increments-eviction c d n events route evicts =
    ap (λ m. m + increments c events)
      (if_neg (Counter-discrete d c)
        (λ p. cc (ap (λ (x : Counter). is_eviction x.name) p, route, evicts)) n 0)
    ∙ omega arith

module _ (lru : LruCache CachedResourceKey ℕ CachedResourceKey-discrete) where
  -- The counters of the routes stay, and no cell has a new file.
  abbrev pub IsSilent : CacheStorage lru → CacheStorage lru → Type 0
  IsSilent s st =
      ((c : Counter) → IsRoute c → increments c st.events ≡ increments c s.events)
      × ((d : ℕ) (r : CachedResource) → st.cells d ≡ some r → s.cells d ≡ some r)

  pub count_eviction-IsSilent :
      (o : Option CachedResource) (s : CacheStorage lru)
      → ((r : CachedResource) → o ≡ some r → AreNamed r.cache_eviction_count r.cache_eviction_bytes)
      → IsSilent s (count_eviction lru o s)
  unfolding count_eviction emit
  count_eviction-IsSilent none s named = ((λ c route. refl), λ d r full. full)
  count_eviction-IsSilent (some r) s named = (
    λ c route.
        increments-eviction c r.cache_eviction_bytes r.size _ route (named r refl).1
        ∙ increments-eviction c r.cache_eviction_count 1 s.events route (named r refl).0,
    λ d x full. full,
  )

  pub dropped-IsSilent :
      (t : Task) (c : ℕ) (s : CacheStorage lru) → IsSilent s (dropped lru t s (drop_cell lru c s)).1
  unfolding dropped drop_cell drop_resource emit increments
  dropped-IsSilent t c s = elim (Option-cases (s.cells c)) [
    | inl empty ↦ rw (empty, drop_cell) ((λ d route. refl), λ d r full. full)
    | inr (r, full) ↦ elim (Option-cases (return_to_pool r.reservation s.capacity_pool)) [
      | inl overflow ↦ rw (full, drop_cell) (rw (overflow, unwrap) ((λ d route. refl), λ d x e. e))
      | inr (pool, returned) ↦
          rw (full, drop_cell)
            (rw (returned, unwrap)
              (
                (λ d route. refl),
                λ d x q. elim (ℕ_discrete c d) [
                  | yes p ↦ absurd (cc (q, if_pos (ℕ_discrete c d) p none (s.cells d)))
                  | no p ↦ sym (if_neg (ℕ_discrete c d) p _ _) ∙ q
                ],
              ))
    ]
  ]

  pub counted-credits :
      (c : Counter) (job : Job) (result : Result (Option UpstreamError) CachedResource)
      (s : CacheStorage lru)
      → (increments c (counted lru job result s).events
          ≡ credited c (credits job result) + increments c s.events)
        × ((counted lru job result s).cells ≡ s.cells)
  unfolding counted emit increments credited credits
  counted-credits c job (err none) s = (omega arith, refl)
  counted-credits c job (err (some error)) s = (omega arith, refl)
  counted-credits c job (ok r) s = elim (Bool-cases (r.id == job.outside.new_v4)) [
    | inl its ↦ rw its (omega arith, refl)
    | inr other ↦ rw other (omega arith, refl)
  ]
