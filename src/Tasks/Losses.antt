-- ===== src/Tasks/Losses.antt =====
-- src/cache.rs, the drop of a cached resource: what the storage is without it.
use server.Cache.{
  CacheStorage, CachedResource, CachedResourceKey, CachedResourceKey-discrete, drop_cell,
  drop_resource, emit, set_cell,
}
use server.Lru.{LruCache}
use server.Metrics.{lower}
use server.Pool.{return_to_pool}
use server.Prelude.{
  ℕ, ◌≡◌, ◌⊎◌, refl, sym, ap, ◌∙◌, inl, inr, ℕ_discrete, none, some, ◌∷◌, Option-cases, unwrap,
  done, panic, if_pos, if_neg,
}

module _ (lru : LruCache CachedResourceKey ℕ CachedResourceKey-discrete) where
  -- A cell is dropped, with its file, or that panics.
  pub drop_cell-cases :
      (c : ℕ) (st : CacheStorage lru)
      → ((st' : CacheStorage lru) × (drop_cell lru c st ≡ done st')
          × (st'.cache_dir ≡ st.cache_dir)
          × (st'.cached_resources ≡ st.cached_resources)
          × ((d : ℕ) (r : CachedResource) → st'.cells d ≡ some r → st.cells d ≡ some r))
        ⊎ (drop_cell lru c st ≡ panic)
  unfolding drop_cell drop_resource emit
  drop_cell-cases c st = elim (Option-cases (st.cells c)) [
    | inl empty ↦ inl (st, rw (empty, drop_cell), refl, refl, λ d r full. full)
    | inr (r, full) ↦ elim (Option-cases (return_to_pool r.reservation st.capacity_pool)) [
      | inl overflow ↦ inr (rw (full, drop_cell) (rw (overflow, unwrap)))
      | inr (pool, returned) ↦ inl (
        record st {
          capacity_pool = pool;
          cells = set_cell st.cells c none;
          events = lower r.cache_disk_bytes r.size ∷ lower r.cache_disk_file_count 1 ∷ st.events;
        },
        rw (full, drop_cell) (rw (returned, unwrap) refl),
        refl,
        refl,
        λ d x q. elim (ℕ_discrete c d) [
          | yes p ↦ absurd (cc (q, if_pos (ℕ_discrete c d) p none (st.cells d)))
          | no p ↦ sym (if_neg (ℕ_discrete c d) p _ _) ∙ q
        ],
      )
    ]
  ]

  pub drop_cell-kept :
      (c : ℕ) (st st' : CacheStorage lru)
      → drop_cell lru c st ≡ done st'
      → (st'.cached_resources ≡ st.cached_resources)
        × ((d : ℕ) (r : CachedResource) → st'.cells d ≡ some r → st.cells d ≡ some r)
  drop_cell-kept c st st' ran = elim (drop_cell-cases c st) [
    | inr panics ↦ absurd (cc (ran, panics))
    | inl (st1, ran1, dirs, cache, lost) ↦
        let same : st1 ≡ st' = cc (ran, ran1) in
        (
          ap (λ (y : CacheStorage lru). y.cached_resources) (sym same) ∙ cache,
          λ d r full. lost d r (ap (λ (y : CacheStorage lru). y.cells d) same ∙ full),
        )
  ]
