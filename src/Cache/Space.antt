-- ===== src/Cache/Space.antt =====
-- The loop that makes room in the pool for a file: it ends, and evicts no more than it must.
use server.Cache.Create.{take_rest, reserve_space}
use server.Cache.Evict.{Shrunk, evict-empty, evict-last}
use server.Cache.Invariant.{Books, reserved_in}
use server.Cache.Storage.{CacheStorage}
use server.Cache.Totals.{
  Lacks, Lacks-append, Distinct, Distinct-middle, total, total-empty, total-middle, total-same,
  get_last?-cases,
}
use server.Cache.Types.{CachedResourceKey, CachedResourceKey-discrete}
use server.Lru.{LruCache}
use server.Pool.Cases.{reserve-cases, reserve_up_to-all}
use server.Pool.{u64_mod, CacheCapacityPool, CacheCapacityReservation}
use server.Prelude.{
  ℕ, zero, suc, ◌+◌, ◌-◌, ◌<◌, ◌≡◌, refl, sym, ap, ◌∙◌, subst, none, List, [], ◌∷◌, ◌++◌,
  append_assoc, append-nil, arith, length, length-append, done, ◌⊎◌, inl, inr,
}

module _ (lru : LruCache CachedResourceKey ℕ CachedResourceKey-discrete) where
  abbrev entries : CacheStorage lru → List (CachedResourceKey × ℕ)
  entries s = lru.entries s.cached_resources

  -- The pool's share after a reservation: the books balance for what is left of the capacity.
  abbrev pub with_pool : CacheCapacityPool → CacheStorage lru → CacheStorage lru
  with_pool pool s = record s { capacity_pool = pool }

  pub Books-pool :
      {capacity : ℕ} {live : List (CachedResourceKey × ℕ)} (left available : ℕ)
      (s : CacheStorage lru)
      → Books lru capacity none live s
      → left + s.capacity_pool.available_capacity ≡ capacity + available
      → Books lru left none live (with_pool (record { available_capacity = available }) s)
  Books-pool left available s h e = record {
    conserved = omega (arith, h.conserved, e);
    gauges = h.gauges;
    distinct = h.distinct;
    allocated = h.allocated;
    stray = h.stray;
  }

  -- The outcome of the loop: what was reserved, and what was evicted for it.
  pub record Made (capacity size : ℕ) (r : CacheCapacityReservation) (s s' : CacheStorage lru)
      : Type 0 where
    pub dropped : List (CachedResourceKey × ℕ)
    pub shrunk : Shrunk lru dropped s s'
    pub left : ℕ
    pub taken : left + r.reserved ≡ capacity
    pub books : Books lru left none (lru.entries s'.cached_resources) s'
    -- The whole size, or all that the pool has once the cache is empty.
    pub enough :
        (r.reserved ≡ size)
        ⊎ ((lru.entries s'.cached_resources ≡ []) × (r.reserved ≡ capacity) × (capacity < size))
    -- Without the entry that was evicted last there was not enough.
    pub least :
        (dropped ≡ [])
        ⊎ ((e : CachedResourceKey × ℕ) × (es : List (CachedResourceKey × ℕ)) × (dropped ≡ e ∷ es)
            × (s.capacity_pool.available_capacity + total reserved_in s.cells es < size))

  Shrunk-none :
      (s : CacheStorage lru) (pool : CacheCapacityPool) → Shrunk lru [] s (with_pool pool s)
  Shrunk-none s pool = record {
    shorter = sym (append-nil (entries s));
    same_cap = refl;
    same_next = refl;
    emptied = λ d e. e;
    others = λ d l. refl;
  }

  Shrunk-more :
      (e : CachedResourceKey × ℕ) (es : List (CachedResourceKey × ℕ)) (s s' s'' : CacheStorage lru)
      → Shrunk lru (e ∷ []) s s'
      → Shrunk lru es s' s''
      → Shrunk lru (es ++ e ∷ []) s s''
  Shrunk-more e es s s' s'' h h' = record {
    shorter = h.shorter ∙ ap (λ l. l ++ e ∷ []) h'.shorter ∙ append_assoc (entries s'') es (e ∷ []);
    same_cap = h'.same_cap ∙ h.same_cap;
    same_next = h'.same_next ∙ h.same_next;
    emptied = λ d empty. h'.emptied d (h.emptied d empty);
    others =
        λ d l. let (le, ll) = (Lacks-append d es (e ∷ [])).0 l in h'.others d le ∙ h.others d ll;
  }

  -- The last entry that is dropped was needed, if it was needed after `e` was gone.
  least-more :
      (capacity size : ℕ) (e : CachedResourceKey × ℕ) (s s' : CacheStorage lru)
      (dropped xs : List (CachedResourceKey × ℕ))
      → Books lru capacity none (entries s) s
      → Shrunk lru (e ∷ []) s s'
      → entries s' ≡ xs ++ dropped
      → s'.capacity_pool.available_capacity
        ≡ s.capacity_pool.available_capacity + reserved_in (s.cells e.1)
      → s.capacity_pool.available_capacity < size
      → (dropped ≡ [])
        ⊎ ((f : CachedResourceKey × ℕ) × (fs : List (CachedResourceKey × ℕ)) × (dropped ≡ f ∷ fs)
            × (s'.capacity_pool.available_capacity + total reserved_in s'.cells fs < size))
      → (f : CachedResourceKey × ℕ) × (fs : List (CachedResourceKey × ℕ)) × (dropped ++ e ∷ []
          ≡ f ∷ fs)
        × (s.capacity_pool.available_capacity + total reserved_in s.cells fs < size)
  least-more capacity size e s s' dropped xs h shrunk shorter paid short (inl nil) = (
    e,
    [],
    ap (λ l. l ++ e ∷ []) nil,
    omega (arith, short, total-empty {K = CachedResourceKey} reserved_in s.cells [] refl),
  )
  least-more capacity size e s s' dropped xs h shrunk shorter paid short (inr (f, fs, same, lt)) =
      let dis = subst Distinct shrunk.shorter h.distinct in
      let lack0 = (Distinct-middle e (entries s') [] dis).1 in
      let lack1 = ((Lacks-append e.1 (entries s') []).0 lack0).0 in
      let lack2 = subst (Lacks e.1) (shorter ∙ ap (λ l. xs ++ l) same) lack1 in
      let lack = ((Lacks-append e.1 xs (f ∷ fs)).0 lack2).1.1 in
      (
        f,
        fs ++ e ∷ [],
        ap (λ l. l ++ e ∷ []) same,
        omega (
          arith,
          lt,
          paid,
          total-middle reserved_in s.cells e fs [],
          ap (total reserved_in s.cells) (append-nil fs),
          total-same reserved_in s.cells s'.cells fs e.1 lack
              (λ d p. shrunk.others d ((λ q. p (sym q)), tt)),
        ),
      )

  Made-more :
      (capacity size : ℕ) (r : CacheCapacityReservation) (e : CachedResourceKey × ℕ)
      (s s' s'' : CacheStorage lru)
      → Books lru capacity none (entries s) s
      → Shrunk lru (e ∷ []) s s'
      → s'.capacity_pool.available_capacity
        ≡ s.capacity_pool.available_capacity + reserved_in (s.cells e.1)
      → s.capacity_pool.available_capacity < size
      → Made capacity size r s' s''
      → Made capacity size r s s''
  Made-more capacity size r e s s' s'' h shrunk paid short made = record {
    dropped = made.dropped ++ e ∷ [];
    shrunk = Shrunk-more e made.dropped s s' s'' shrunk made.shrunk;
    left = made.left;
    taken = made.taken;
    books = made.books;
    enough = made.enough;
    least = inr (
        least-more capacity size e s s' made.dropped (entries s'') h shrunk made.shrunk.shorter paid
          short made.least);
  }

  module _ {capacity : ℕ} (bounded : capacity < u64_mod) (size : ℕ) where
    take_rest-all :
        (s : CacheStorage lru)
        → s.capacity_pool.available_capacity < size
        → take_rest lru size s ≡ (
          record { reserved = s.capacity_pool.available_capacity },
          with_pool (record { available_capacity = 0 }) s,
        )
    unfolding take_rest
    take_rest-all s short = rw (reserve_up_to-all s.capacity_pool size short)

    -- On balanced books, of a capacity below 2^64, and with a round of fuel for each entry and one
    -- more the loop ends, without a panic. It reserves
    -- the whole size if the capacity allows, and otherwise the whole capacity, of an empty cache.
    -- It evicts from the end of the cache, and no entry more than is needed for that.
    pub reserve_space-Made :
        (fuel : ℕ) (s : CacheStorage lru)
        → Books lru capacity none (lru.entries s.cached_resources) s
        → length (lru.entries s.cached_resources) < fuel
        → (r : CacheCapacityReservation) × (s' : CacheStorage lru) × (reserve_space lru fuel size s
            ≡ done (r, s'))
          × Made capacity size r s s'
    unfolding reserve_space
    reserve_space-Made zero s h lt = absurd (omega arith)
    reserve_space-Made (suc fuel) s h lt = elim (reserve-cases s.capacity_pool size) [
      | inl (fits, ran) ↦ (
        record { reserved = size },
        with_pool (record { available_capacity = s.capacity_pool.available_capacity - size }) s,
        rw (ran, reserve_space) (rw ran),
        record {
          dropped = [];
          shrunk = Shrunk-none s _;
          left = capacity - size;
          taken = omega (arith, h.conserved);
          books = Books-pool (capacity - size) _ s h (omega (arith, h.conserved));
          enough = inl refl;
          least = inl refl;
        },
      )
      | inr (short, ran) ↦ elim (get_last?-cases (entries s)) [
        | inl (empty, _) ↦
            let whole : s.capacity_pool.available_capacity ≡ capacity =
              omega (arith, h.conserved, total-empty reserved_in s.cells (entries s) empty) in
            (
              record { reserved = s.capacity_pool.available_capacity },
              with_pool (record { available_capacity = 0 }) s,
              rw (ran, evict-empty lru s empty, reserve_space) (ap done (take_rest-all s short)),
              record {
                dropped = [];
                shrunk = Shrunk-none s _;
                left = 0;
                taken = omega (arith, whole);
                books = Books-pool 0 0 s h (omega (arith, whole));
                enough = inr (empty, whole, omega (arith, whole, short));
                least = inl refl;
              },
            )
        | inr (e, last, same) ↦
            let (s1, evicted, shrunk, books, paid) = evict-last lru bounded s e h last same in
            let fewer : length (entries s1) < fuel =
              omega (arith, ap length shrunk.shorter, length-append (entries s1) (e ∷ [])) in
            let (r, s2, ran', made) = reserve_space-Made fuel s1 books fewer in
            (
              r,
              s2,
              rw (ran, evicted, reserve_space) ran',
              Made-more capacity size r e s s1 s2 h shrunk paid short made,
            )
      ]
    ]
