-- ===== src/Cache/Evict.antt =====
-- One eviction: the counters of what is evicted, and its drop.
use server.Cache.Create.{evict, count_eviction}
use server.Cache.Invariant.{Books, reserved_in, drop_cell_lem, Dropped}
use server.Cache.Storage.{CacheStorage, drop_cell}
use server.Cache.Totals.{Lacks, Distinct-middle, total-middle, total-same}
use server.Cache.Types.{CachedResourceKey, CachedResourceKey-discrete, CachedResource}
use server.Lru.{LruCache, get_last?, drop_last}
use server.Metrics.{raised, lowered}
use server.Pool.{u64_mod}
use server.Prelude.{
  ℕ, ◌+◌, ◌<◌, ◌≡◌, refl, sym, ap, ◌∙◌, subst, ℕ_discrete, Option, none, some, List, [], ◌∷◌, ◌++◌,
  append-nil, arith, done,
}

module _ (lru : LruCache CachedResourceKey ℕ CachedResourceKey-discrete) where
  abbrev entries : CacheStorage lru → List (CachedResourceKey × ℕ)
  entries s = lru.entries s.cached_resources

  -- Some entries have been evicted, the least recently used first.
  pub record Shrunk (dropped : List (CachedResourceKey × ℕ)) (s s' : CacheStorage lru)
      : Type 0 where
    pub shorter : lru.entries s.cached_resources ≡ lru.entries s'.cached_resources ++ dropped
    pub same_cap : lru.cap s'.cached_resources ≡ lru.cap s.cached_resources
    pub same_next : s'.next_cell ≡ s.next_cell
    pub emptied : (d : ℕ) → s.cells d ≡ none → s'.cells d ≡ none
    pub others : (d : ℕ) → Lacks d dropped → s'.cells d ≡ s.cells d

  pub count_eviction-Books :
      {capacity : ℕ} {extra : Option CachedResource} {live : List (CachedResourceKey × ℕ)}
      (o : Option CachedResource) (s : CacheStorage lru) (cache : lru.State)
      → Books lru capacity extra live s
      → Books lru capacity extra live (count_eviction lru o (record s { cached_resources = cache }))
  unfolding count_eviction raised lowered
  count_eviction-Books none s cache h = record {
    conserved = h.conserved;
    gauges = h.gauges;
    distinct = h.distinct;
    allocated = h.allocated;
    stray = h.stray;
  }
  count_eviction-Books (some r) s cache h = record {
    conserved = h.conserved;
    gauges = h.gauges;
    distinct = h.distinct;
    allocated = h.allocated;
    stray = h.stray;
  }

  -- The counters are all that changes.
  pub count_eviction-same :
      (o : Option CachedResource) (s : CacheStorage lru)
      → ((count_eviction lru o s).cells ≡ s.cells)
        × ((count_eviction lru o s).cached_resources ≡ s.cached_resources)
        × ((count_eviction lru o s).next_cell ≡ s.next_cell)
        × ((count_eviction lru o s).capacity_pool ≡ s.capacity_pool)
  unfolding count_eviction
  count_eviction-same none s = (refl, refl, refl, refl)
  count_eviction-same (some r) s = (refl, refl, refl, refl)

  pub evict-empty : (s : CacheStorage lru) → entries s ≡ [] → evict lru s ≡ done none
  unfolding evict get_last?
  evict-empty s e = rw ((lru.pop_lru_lem s.cached_resources).0 ∙ ap get_last? e, evict)

  -- The storage while the popped entry `e` is counted, and before it is dropped.
  abbrev pub popped : CachedResourceKey × ℕ → CacheStorage lru → CacheStorage lru
  popped e s =
      count_eviction lru (s.cells e.1)
        (record s { cached_resources = (lru.pop_lru s.cached_resources).1 })

  evict-run :
      (s s' : CacheStorage lru) (e : CachedResourceKey × ℕ)
      → get_last? (entries s) ≡ some e
      → drop_cell lru e.1 (popped e s) ≡ done s'
      → evict lru s ≡ done (some s')
  unfolding evict
  evict-run s s' e last ran = rw ((lru.pop_lru_lem s.cached_resources).0 ∙ last, evict) (rw ran)

  -- What a drop pays back.
  paid_back :
      {capacity : ℕ} (e : CachedResourceKey × ℕ) (xs : List (CachedResourceKey × ℕ))
      (s s' : CacheStorage lru)
      → Books lru capacity none (xs ++ e ∷ []) s
      → Books lru capacity none (xs ++ []) s'
      → Dropped lru e.1 s s'
      → s'.capacity_pool.available_capacity
        ≡ s.capacity_pool.available_capacity + reserved_in (s.cells e.1)
  paid_back e xs s s' h h' d =
      let (dis, lack) = Distinct-middle e xs [] h.distinct in
      omega (
        arith,
        h.conserved,
        h'.conserved,
        total-middle reserved_in s.cells e xs [],
        total-same reserved_in s.cells s'.cells (xs ++ []) e.1 lack d.others,
      )

  Shrunk-popped :
      (s s' : CacheStorage lru) (e : CachedResourceKey × ℕ)
      → entries s ≡ drop_last (entries s) ++ e ∷ []
      → Dropped lru e.1 (popped e s) s'
      → Shrunk (e ∷ []) s s' × (entries s' ≡ drop_last (entries s))
  Shrunk-popped s s' e same d =
      let laws = lru.pop_lru_lem s.cached_resources in
      let before = record s { cached_resources = (lru.pop_lru s.cached_resources).1 } in
      let (same_cells, same_cache, same_next, same_pool) =
        count_eviction-same (s.cells e.1) before in
      let cache = d.same_cache ∙ same_cache in
      let left : entries s' ≡ drop_last (entries s) = rw cache laws.1 in
      (
        record {
          shorter = same ∙ ap (λ l. l ++ e ∷ []) (sym left);
          same_cap = rw cache laws.2;
          same_next = d.same_next ∙ same_next;
          emptied = λ c empty. elim (ℕ_discrete c e.1) [
            | yes p ↦ rw p d.emptied
            | no p ↦ d.others c p ∙ rw same_cells empty
          ];
          others = λ c l. d.others c (λ p. l.0 (sym p)) ∙ rw same_cells;
        },
        left,
      )

  module _ {capacity : ℕ} (bounded : capacity < u64_mod) where
    -- One eviction leaves a valid storage with one entry less.
    pub evict-last :
        (s : CacheStorage lru) (e : CachedResourceKey × ℕ)
        → Books lru capacity none (entries s) s
        → get_last? (entries s) ≡ some e
        → entries s ≡ drop_last (entries s) ++ e ∷ []
        → (s' : CacheStorage lru) × (evict lru s ≡ done (some s'))
          × Shrunk (e ∷ []) s s'
          × Books lru capacity none (entries s') s'
          × (s'.capacity_pool.available_capacity
              ≡ s.capacity_pool.available_capacity + reserved_in (s.cells e.1))
    evict-last s e h last same =
        let xs = drop_last (entries s) in
        let before = record s { cached_resources = (lru.pop_lru s.cached_resources).1 } in
        let (same_cells, same_cache, same_next, same_pool) =
          count_eviction-same (s.cells e.1) before in
        let books0 =
          count_eviction-Books (s.cells e.1) s (lru.pop_lru s.cached_resources).1
            (subst (λ l. Books lru capacity none l s) same h) in
        let (s', ran, d, books) = drop_cell_lem lru bounded e.0 e.1 xs [] (popped e s) books0 in
        let (shrunk, left) = Shrunk-popped s s' e same d in
        (
          s',
          evict-run s s' e last ran,
          shrunk,
          subst (λ l. Books lru capacity none l s') (append-nil xs ∙ sym left) books,
          paid_back e xs (popped e s) s' books0 books d ∙ rw (same_pool, same_cells),
        )
