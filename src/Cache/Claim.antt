-- ===== src/Cache/Claim.antt =====
-- Claiming a cell under the lock keeps the books.
use mathlib.Core.List.{lookup}
use server.Cache.Invariant.{Books, reserved_in, counts_for, counts_for-none, drop_cell_lem}
use server.Cache.Storage.{CacheStorage, drop_entries, insert_cell}
use server.Cache.Totals.{
  Lacks, Distinct-middle, Lacks-append, Lacks-of_le, total-cons, total-middle, lookup_split,
}
use server.Cache.Types.{CachedResourceKey, CachedResourceKey-discrete, CachedResource}
use server.Lru.Entries.{
  slot-present, touched-present, pushed_out-present, slot-absent, touched-absent, pushed_out-absent,
}
use server.Lru.{LruCache}
use server.Pool.{u64_mod}
use server.Prelude.{
  ℕ, ◌+◌, ◌-◌, ◌≤◌, ◌<◌, ◌≡◌, refl, sym, ap, subst, ◌∙◌, Option, none, some, List, [], ◌∷◌, ◌++◌,
  arith, All, All-map, All-append, All-left, All-right, length, length-append, length-take-le, take,
  drop, take-append-drop, append-nil, done, ◌>>=◌,
}

module _ (lru : LruCache CachedResourceKey ℕ CachedResourceKey-discrete) where
  -- What dropping some entries leaves as it is.
  pub record Kept (es : List (CachedResourceKey × ℕ)) (s s' : CacheStorage lru) : Type 0 where
    pub same_cache : s'.cached_resources ≡ s.cached_resources
    pub same_next : s'.next_cell ≡ s.next_cell
    pub same_dir : s'.cache_dir ≡ s.cache_dir
    pub others : (d : ℕ) → Lacks d es → s'.cells d ≡ s.cells d

  module _ {capacity : ℕ} (bounded : capacity < u64_mod) where
    drop_entries_lem :
        {extra : Option CachedResource} (xs ys : List (CachedResourceKey × ℕ))
        (s : CacheStorage lru)
        → Books lru capacity extra (xs ++ ys) s
        → (s' : CacheStorage lru) × (drop_entries lru ys s ≡ done s')
          × Kept ys s s'
          × Books lru capacity extra xs s'
    unfolding drop_entries
    drop_entries_lem xs [] s h = (
      s,
      refl,
      record { same_cache = refl; same_next = refl; same_dir = refl; others = λ _ _. refl },
      rw (append-nil xs) at h,
    )
    drop_entries_lem xs ((k, c) ∷ ys) s h =
        let (s1, ran, d, books) = drop_cell_lem lru bounded k c xs ys s h in
        let (s2, ran', kept, books') = drop_entries_lem xs ys s1 books in
        (
          s2,
          rw ran ran',
          record {
            same_cache = kept.same_cache ∙ d.same_cache;
            same_next = kept.same_next ∙ d.same_next;
            same_dir = kept.same_dir ∙ d.same_dir;
            others = λ e l. kept.others e l.1 ∙ d.others e (λ p. l.0 (sym p));
          },
          books',
        )

  -- A new, empty cell in front.
  pub Books-add :
      {capacity : ℕ} {extra : Option CachedResource} (k : CachedResourceKey)
      (live : List (CachedResourceKey × ℕ)) (s : CacheStorage lru) (cache : lru.State)
      → Books lru capacity extra live s
      → (s.cells s.next_cell ≡ none)
        × Books lru capacity extra
            ((k, s.next_cell) ∷ live)
            (record s { cached_resources = cache; next_cell = s.next_cell + 1 })
  Books-add k live s cache h =
      let lack = Lacks-of_le s.next_cell s.next_cell live h.allocated (omega arith) in
      let empty = h.stray s.next_cell lack in
      (
        empty,
        record {
          conserved = rw (total-cons, empty) (omega (arith, h.conserved));
          gauges = λ g. rw (total-cons, empty) (omega (arith, h.gauges g, counts_for-none g));
          distinct = (lack, h.distinct);
          allocated = (
            omega arith,
            All-map (λ e. e.1 < s.next_cell) (λ e. e.1 < s.next_cell + 1) (λ e lt. omega arith) live
                h.allocated,
          );
          stray = λ c l. h.stray c l.1;
        },
      )

  -- An entry moves to the front.
  pub Books-front :
      {capacity : ℕ} {extra : Option CachedResource} (e : CachedResourceKey × ℕ)
      (xs ys : List (CachedResourceKey × ℕ)) (s : CacheStorage lru) (cache : lru.State)
      → Books lru capacity extra (xs ++ e ∷ ys) s
      → Books lru capacity extra
          (e ∷ (xs ++ ys))
          (record s { cached_resources = cache; next_cell = s.next_cell + 1 })
  Books-front e xs ys s cache h =
      let (dis, lack) = Distinct-middle e xs ys h.distinct in
      let right = All-right (λ f. f.1 < s.next_cell) xs (e ∷ ys) h.allocated in
      let all =
        All-append (λ f. f.1 < s.next_cell) xs ys
          (All-left (λ f. f.1 < s.next_cell) xs (e ∷ ys) h.allocated) right.1 in
      record {
        conserved = omega (
          arith,
          h.conserved,
          total-middle reserved_in s.cells e xs ys,
          total-cons reserved_in s.cells e (xs ++ ys),
        );
        gauges = λ g. omega (
          arith,
          h.gauges g,
          total-middle (counts_for g) s.cells e xs ys,
          total-cons (counts_for g) s.cells e (xs ++ ys),
        );
        distinct = (lack, dis);
        allocated = (
          omega (arith, right.0),
          All-map (λ f. f.1 < s.next_cell) (λ f. f.1 < s.next_cell + 1) (λ f lt. omega arith)
              (xs ++ ys) all,
        );
        stray = λ c l.
            let (lx, ly) = (Lacks-append c xs ys).0 l.1 in
            h.stray c ((Lacks-append c xs (e ∷ ys)).1 (lx, (l.0, ly)));
      }

  -- The storage between two requests.
  pub record IsValid (capacity : ℕ) (s : CacheStorage lru) : Type 0 where
    pub books : Books lru capacity none (lru.entries s.cached_resources) s
    pub roomy : 0 < lru.cap s.cached_resources
    pub bounded : length (lru.entries s.cached_resources) ≤ lru.cap s.cached_resources

  -- The storage `s'` with the cell of the key claimed.
  pub record Claimed (capacity : ℕ) (k : CachedResourceKey) (cell : ℕ) (s' : CacheStorage lru)
      : Type 0 where
    pub rest : List (CachedResourceKey × ℕ)
    pub front : lru.entries s'.cached_resources ≡ (k, cell) ∷ rest
    pub books : Books lru capacity none ((k, cell) ∷ rest) s'
    pub roomy : 0 < lru.cap s'.cached_resources
    pub bounded : length rest + 1 ≤ lru.cap s'.cached_resources

  abbrev dec : Discrete CachedResourceKey
  dec = CachedResourceKey-discrete

  module _ {capacity : ℕ} (bounded : capacity < u64_mod) (k : CachedResourceKey) where
    abbrev inserted : CacheStorage lru → CacheStorage lru
    inserted s = record s {
      cached_resources = (lru.get_or_insert_mut_ref k s.next_cell s.cached_resources).2;
      next_cell = s.next_cell + 1;
    }

    insert_cell_lem :
        (w : ℕ) (es : List (CachedResourceKey × ℕ)) (s : CacheStorage lru)
        → (lru.get_or_insert_mut_ref k s.next_cell s.cached_resources).0 ≡ w
        → (lru.get_or_insert_mut_ref k s.next_cell s.cached_resources).1 ≡ es
        → insert_cell lru k s ≡ (drop_entries lru es (inserted s) >>= λ s'. done (w, s'))
    unfolding insert_cell
    insert_cell_lem w es s slots drops = rw (slots, drops)

    -- The key is in the cache: its cell is claimed, and nothing is dropped.
    pub insert_cell-present :
        (v : ℕ) (s : CacheStorage lru)
        → IsValid capacity s
        → lookup dec k (lru.entries s.cached_resources) ≡ some v
        → (insert_cell lru k s ≡ done (v, inserted s)) × Claimed capacity k v (inserted s)
    unfolding drop_entries
    insert_cell-present v s h present =
        let es = lru.entries s.cached_resources in
        let new_cell = s.next_cell in
        let laws = lru.get_or_insert_lem k new_cell s.cached_resources in
        let (xs, ys, same, removed) = lookup_split dec k es v present in
        (
          insert_cell_lem v [] s (laws.0 ∙ slot-present dec k new_cell es v present) (
              laws.1 ∙ pushed_out-present dec k new_cell es v present (lru.cap s.cached_resources)),
          record {
            rest = xs ++ ys;
            front =
                laws.2
                ∙ touched-present dec k new_cell es v present (lru.cap s.cached_resources)
                ∙ ap (◌∷◌ (k, v)) removed;
            books = Books-front (k, v) xs ys s _ (rw same at h.books);
            roomy = rw laws.3 h.roomy;
            bounded = omega (
              arith,
              h.bounded,
              laws.3,
              ap length same,
              length-append xs ((k, v) ∷ ys),
              length-append xs ys,
            );
          },
        )

    -- The key is absent: a new, empty cell is claimed, and the cache drops what it has no room for.
    pub insert_cell-absent :
        (s : CacheStorage lru)
        → IsValid capacity s
        → lookup dec k (lru.entries s.cached_resources) ≡ none
        → (s' : CacheStorage lru) × (insert_cell lru k s ≡ done (s.next_cell, s'))
          × (s'.cells s.next_cell ≡ none)
          × (s'.cache_dir ≡ s.cache_dir)
          × Claimed capacity k s.next_cell s'
    insert_cell-absent s h absent =
        let es = lru.entries s.cached_resources in
        let n = lru.cap s.cached_resources in
        let new_cell = s.next_cell in
        let laws = lru.get_or_insert_lem k new_cell s.cached_resources in
        let (empty, added) = Books-add k es s (inserted s).cached_resources h.books in
        let split = ap (◌∷◌ (k, new_cell)) (sym (take-append-drop (n - 1) es)) in
        let (s', ran, kept, books) =
          drop_entries_lem bounded ((k, new_cell) ∷ take (n - 1) es) (drop (n - 1) es) (inserted s)
            (subst (λ l. Books lru capacity none l (inserted s)) split added) in
        let same = kept.same_cache in
        (
          s',
          insert_cell_lem new_cell (drop (n - 1) es) s
                (laws.0 ∙ slot-absent dec k new_cell es absent)
                (laws.1 ∙ pushed_out-absent dec k new_cell es absent n)
              ∙ rw ran,
          kept.others new_cell (
                Lacks-of_le new_cell new_cell (drop (n - 1) es)
                  (All-right (λ e. e.1 < new_cell) (take (n - 1) es) (drop (n - 1) es)
                    (subst (All (λ e. e.1 < new_cell)) (sym (take-append-drop (n - 1) es))
                      h.books.allocated))
                  (omega arith))
              ∙ empty,
          kept.same_dir,
          record {
            rest = take (n - 1) es;
            front = rw same (laws.2 ∙ touched-absent dec k new_cell es absent n);
            books = books;
            roomy = rw (same, laws.3) h.roomy;
            bounded = rw (same, laws.3) (omega (arith, h.roomy, length-take-le (n - 1) es));
          },
        )
