-- ===== src/Cache/Invariant.antt =====
-- The invariant of the storage: the books of the capacity pool and of the gauges balance.
use server.Cache.Storage.{CacheStorage, drop_cell, set_cell}
use server.Cache.Totals.{
  Lacks, Distinct, Distinct-middle, Lacks-append, total, total-middle, total-same,
}
use server.Cache.Types.{CachedResourceKey, CachedResourceKey-discrete, CachedResource}
use server.Lru.{LruCache}
use server.Metrics.{Gauge, Gauge-discrete, lower, raised, lowered}
use server.Pool.{u64_mod}
use server.Prelude.{
  ℕ, ◌+◌, ◌<◌, ◌≡◌, ◌≢◌, refl, sym, ◌∙◌, ℕ_discrete, Option, none, some, List, ◌∷◌, ◌++◌, arith,
  All, All-append, All-left, All-right, ite, done, inl, inr, Option-cases,
}

-- What a resource has reserved of the pool.
abbrev pub reserved_in : Option CachedResource → ℕ
reserved_in none = 0
reserved_in (some resource) = resource.reservation.reserved

-- What a resource adds to a gauge.
unfoldable pub counts_for : Gauge → Option CachedResource → ℕ
counts_for g none = 0
counts_for g (some resource) =
    ite (Gauge-discrete resource.cache_disk_file_count g) 1 0
    + ite (Gauge-discrete resource.cache_disk_bytes g) resource.size 0

pub counts_for-none : (g : Gauge) → counts_for g none ≡ 0
unfolding counts_for
counts_for-none g = refl

module _ (lru : LruCache CachedResourceKey ℕ CachedResourceKey-discrete) where
  -- The books over the entries `live` and one resource `extra` that no cell holds yet.
  pub record Books (capacity : ℕ) (extra : Option CachedResource)
      (live : List (CachedResourceKey × ℕ)) (s : CacheStorage lru) : Type 0 where
    pub conserved :
        s.capacity_pool.available_capacity + total reserved_in s.cells live + reserved_in extra
        ≡ capacity
    pub gauges :
        (g : Gauge)
        → raised g s.events
          ≡ lowered g s.events + total (counts_for g) s.cells live + counts_for g extra
    pub distinct : Distinct live
    pub allocated : All (λ e. e.1 < s.next_cell) live
    pub stray : (c : ℕ) → Lacks c live → s.cells c ≡ none

  -- What a drop leaves as it is.
  pub record Dropped (c : ℕ) (s s' : CacheStorage lru) : Type 0 where
    pub same_cache : s'.cached_resources ≡ s.cached_resources
    pub same_next : s'.next_cell ≡ s.next_cell
    pub same_dir : s'.cache_dir ≡ s.cache_dir
    pub emptied : s'.cells c ≡ none
    pub others : (d : ℕ) → d ≢ c → s'.cells d ≡ s.cells d

  -- The storage after the last `Arc` of a full cell went.
  abbrev pub after_drop : ℕ → CachedResource → CacheStorage lru → CacheStorage lru
  after_drop c r s = record s {
    cells = set_cell s.cells c none;
    capacity_pool = record {
      available_capacity = s.capacity_pool.available_capacity + r.reservation.reserved;
    };
    events = lower r.cache_disk_bytes r.size ∷ lower r.cache_disk_file_count 1 ∷ s.events;
  }

  drop_full :
      (c : ℕ) (r : CachedResource) (s : CacheStorage lru)
      → s.cells c ≡ some r
      → s.capacity_pool.available_capacity + r.reservation.reserved < u64_mod
      → drop_cell lru c s ≡ done (after_drop c r s)
  unfolding drop_cell
  drop_full c r s full fits = rw (full, drop_cell) (ground arith)

  pub drop_empty : (c : ℕ) (s : CacheStorage lru) → s.cells c ≡ none → drop_cell lru c s ≡ done s
  unfolding drop_cell
  drop_empty c s empty = rw (empty, drop_cell)

  drop_nothing :
      (g : Gauge) (s : CacheStorage lru)
      → lowered g s.events ≡ counts_for g none + lowered g s.events
  unfolding counts_for
  drop_nothing g s = omega arith

  stray-middle :
      (cells cells' : ℕ → Option CachedResource) (e : CachedResourceKey × ℕ)
      (xs ys : List (CachedResourceKey × ℕ))
      → ((c : ℕ) → Lacks c (xs ++ e ∷ ys) → cells c ≡ none)
      → cells' e.1 ≡ none
      → ((d : ℕ) → d ≢ e.1 → cells' d ≡ cells d)
      → (c : ℕ) → Lacks c (xs ++ ys)
      → cells' c ≡ none
  stray-middle cells cells' e xs ys stray emptied others c l = elim (ℕ_discrete c e.1) [
    | yes p ↦ rw p emptied
    | no p ↦
        let (lx, ly) = (Lacks-append c xs ys).0 l in
        others c p ∙ stray c ((Lacks-append c xs (e ∷ ys)).1 (lx, (λ q. p (sym q), ly)))
  ]

  -- The books with one entry less, whose cell is emptied and whose resource is paid back.
  pub Books-middle :
      {capacity : ℕ} {extra : Option CachedResource} (e : CachedResourceKey × ℕ)
      (xs ys : List (CachedResourceKey × ℕ)) (s s' : CacheStorage lru)
      → Books capacity extra (xs ++ e ∷ ys) s
      → Dropped e.1 s s'
      → s'.capacity_pool.available_capacity
        ≡ s.capacity_pool.available_capacity + reserved_in (s.cells e.1)
      → ((g : Gauge)
          → (raised g s'.events ≡ raised g s.events)
            × (lowered g s'.events ≡ counts_for g (s.cells e.1) + lowered g s.events))
      → Books capacity extra (xs ++ ys) s'
  Books-middle {capacity} {extra} e xs ys s s' h d pool events =
      let (dis, lack) = Distinct-middle e xs ys h.distinct in
      record {
        conserved = omega (
          arith,
          h.conserved,
          pool,
          total-middle reserved_in s.cells e xs ys,
          total-same reserved_in s.cells s'.cells (xs ++ ys) e.1 lack d.others,
        );
        gauges = λ g. omega (
          arith,
          h.gauges g,
          (events g).0,
          (events g).1,
          total-middle (counts_for g) s.cells e xs ys,
          total-same (counts_for g) s.cells s'.cells (xs ++ ys) e.1 lack d.others,
        );
        distinct = dis;
        allocated = rw (d.same_next) (
            All-append (λ e. e.1 < s.next_cell) xs ys
              (All-left (λ e. e.1 < s.next_cell) xs (e ∷ ys) h.allocated)
              (All-right (λ e. e.1 < s.next_cell) xs (e ∷ ys) h.allocated).1);
        stray = stray-middle s.cells s'.cells e xs ys h.stray d.emptied d.others;
      }

  after_drop-events :
      (g : Gauge) (c : ℕ) (r : CachedResource) (s : CacheStorage lru)
      → (raised g (after_drop c r s).events ≡ raised g s.events)
        × (lowered g (after_drop c r s).events ≡ counts_for g (some r) + lowered g s.events)
  unfolding raised lowered counts_for
  after_drop-events g c r s = (refl, omega arith)

  module _ {capacity : ℕ} (bounded : capacity < u64_mod) where
    fits :
        {extra : Option CachedResource} (k : CachedResourceKey) (c : ℕ)
        (xs ys : List (CachedResourceKey × ℕ)) (s : CacheStorage lru) (r : CachedResource)
        → Books capacity extra (xs ++ (k, c) ∷ ys) s
        → s.cells c ≡ some r
        → s.capacity_pool.available_capacity + r.reservation.reserved < u64_mod
    fits k c xs ys s r h full =
        let w : reserved_in (s.cells c) ≡ r.reservation.reserved = rw full in
        omega (arith, h.conserved, total-middle reserved_in s.cells (k, c) xs ys, w, bounded)

    -- The last `Arc` of a cell is dropped: there is no overflow, and the books balance without it.
    pub drop_cell_lem :
        {extra : Option CachedResource} (k : CachedResourceKey) (c : ℕ)
        (xs ys : List (CachedResourceKey × ℕ)) (s : CacheStorage lru)
        → Books capacity extra (xs ++ (k, c) ∷ ys) s
        → (s' : CacheStorage lru) × (drop_cell lru c s ≡ done s')
          × Dropped c s s'
          × Books capacity extra (xs ++ ys) s'
    drop_cell_lem {extra} k c xs ys s h = elim (Option-cases (s.cells c)) [
      | inl empty ↦
          let d : Dropped c s s = record {
            same_cache = refl;
            same_next = refl;
            same_dir = refl;
            emptied = empty;
            others = λ _ _. refl;
          } in
          (
            s,
            drop_empty c s empty,
            d,
            Books-middle (k, c) xs ys s s h d (rw empty (omega arith))
                (λ g. (refl, rw empty (drop_nothing g s))),
          )
      | inr (r, full) ↦
          let d : Dropped c s (after_drop c r s) = record {
            same_cache = refl;
            same_next = refl;
            same_dir = refl;
            emptied = ground arith;
            others = λ e p. ground arith;
          } in
          (
            after_drop c r s,
            drop_full c r s full (fits k c xs ys s r h full),
            d,
            Books-middle (k, c) xs ys s (after_drop c r s) h d (rw full refl)
                (λ g. rw full (after_drop-events g c r s)),
          )
    ]
