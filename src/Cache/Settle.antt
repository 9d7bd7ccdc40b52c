-- ===== src/Cache/Settle.antt =====
-- A filled cell is settled: it is in the cache, or its resource is dropped when the request ends.
use server.Cache.Get.{holds_cell, release}
use server.Cache.Invariant.{Books, reserved_in, counts_for, counts_for-none, drop_cell_lem}
use server.Cache.Storage.{CacheStorage, set_cell, drop_cell}
use server.Cache.Totals.{
  Lacks, Distinct, Distinct-middle, Lacks-append, total, total-cons, total-middle, total-same,
  holds_cell_cases,
}
use server.Cache.Types.{CachedResourceKey, CachedResourceKey-discrete, CachedResource}
use server.Lru.{LruCache}
use server.Metrics.{Gauge, raised, lowered}
use server.Pool.{u64_mod, CacheCapacityPool}
use mathlib.Core.Path.{fun_ext}
use server.Prelude.{
  ℕ, ◌<◌, ◌≡◌, ◌≢◌, refl, sym, ap, ◌∙◌, subst, ℕ_discrete, true, false, Option, none, some, List,
  [], ◌∷◌, ◌++◌, arith, All, if_pos, if_neg, done, inl, inr,
}

module _ (lru : LruCache CachedResourceKey ℕ CachedResourceKey-discrete) where
  -- Nothing but counters has changed.
  pub record CountsOnly (s s' : CacheStorage lru) : Type 0 where
    pub same_cells : (d : ℕ) → s'.cells d ≡ s.cells d
    pub same_cache : s'.cached_resources ≡ s.cached_resources
    pub same_next : s'.next_cell ≡ s.next_cell
    pub same_pool : s'.capacity_pool ≡ s.capacity_pool
    pub same_raised : (g : Gauge) → raised g s'.events ≡ raised g s.events
    pub same_lowered : (g : Gauge) → lowered g s'.events ≡ lowered g s.events

  abbrev pub with_cell : ℕ → Option CachedResource → CacheStorage lru → CacheStorage lru
  with_cell c o s = record s { cells = set_cell s.cells c o }

  module _ {capacity : ℕ} (k : CachedResourceKey) (cell : ℕ) (r : CachedResource)
      (live : List (CachedResourceKey × ℕ)) (s s' : CacheStorage lru)
      (h : Books lru capacity (some r) live s) (empty : s.cells cell ≡ none)
      (counts : CountsOnly (with_cell cell (some r) s) s') where
    filled : s'.cells cell ≡ some r
    filled = counts.same_cells cell ∙ if_pos (ℕ_discrete cell cell) refl _ _

    untouched : (d : ℕ) → d ≢ cell → s'.cells d ≡ s.cells d
    untouched d p = counts.same_cells d ∙ if_neg (ℕ_discrete cell d) (λ q. p (sym q)) _ _

    -- The cell is none of the entries: the books balance with it.
    Books-out : cell < s.next_cell → Lacks cell live → Books lru capacity none ((k, cell) ∷ live) s'
    Books-out lt lack = record {
      conserved =
          let w : reserved_in (s'.cells cell) ≡ r.reservation.reserved = rw filled in
          omega (
            arith,
            h.conserved,
            w,
            ap (λ (p : CacheCapacityPool). p.available_capacity) counts.same_pool,
            total-cons reserved_in s'.cells (k, cell) live,
            total-same reserved_in s.cells s'.cells live cell lack untouched,
          );
      gauges = λ g.
          let w : counts_for g (s'.cells cell) ≡ counts_for g (some r) = rw filled in
          omega (
            arith,
            h.gauges g,
            w,
            counts.same_raised g,
            counts.same_lowered g,
            counts_for-none g,
            total-cons (counts_for g) s'.cells (k, cell) live,
            total-same (counts_for g) s.cells s'.cells live cell lack untouched,
          );
      distinct = (lack, h.distinct);
      allocated =
          subst (λ n. All (λ e. e.1 < n) ((k, cell) ∷ live)) (sym counts.same_next)
            (lt, h.allocated);
      stray = λ c l. untouched c (λ p. l.0 (sym p)) ∙ h.stray c l.1;
    }

    -- The cell is one of the entries.
    pub Books-in :
        (e : CachedResourceKey × ℕ) (xs ys : List (CachedResourceKey × ℕ))
        → live ≡ xs ++ e ∷ ys
        → e.1 ≡ cell
        → Books lru capacity none live s'
    Books-in e xs ys same here =
        let dis = subst Distinct same h.distinct in
        let lack0 = (Distinct-middle e xs ys dis).1 in
        let lack = subst (λ c. Lacks c (xs ++ ys)) here lack0 in
        let was : s.cells e.1 ≡ none = ap s.cells here ∙ empty in
        let is : s'.cells e.1 ≡ some r = ap s'.cells here ∙ filled in
        record {
          conserved =
              let w : reserved_in (s.cells e.1) ≡ 0 = rw was in
              let w' : reserved_in (s'.cells e.1) ≡ r.reservation.reserved = rw is in
              omega (
                arith,
                h.conserved,
                w,
                w',
                ap (λ (p : CacheCapacityPool). p.available_capacity) counts.same_pool,
                ap (total reserved_in s.cells) same,
                ap (total reserved_in s'.cells) same,
                total-middle reserved_in s.cells e xs ys,
                total-middle reserved_in s'.cells e xs ys,
                total-same reserved_in s.cells s'.cells (xs ++ ys) cell lack untouched,
              );
          gauges = λ g.
              let w : counts_for g (s.cells e.1) ≡ counts_for g none = rw was in
              let w' : counts_for g (s'.cells e.1) ≡ counts_for g (some r) = rw is in
              omega (
                arith,
                h.gauges g,
                w,
                w',
                counts.same_raised g,
                counts.same_lowered g,
                counts_for-none g,
                ap (total (counts_for g) s.cells) same,
                ap (total (counts_for g) s'.cells) same,
                total-middle (counts_for g) s.cells e xs ys,
                total-middle (counts_for g) s'.cells e xs ys,
                total-same (counts_for g) s.cells s'.cells (xs ++ ys) cell lack untouched,
              );
          distinct = h.distinct;
          allocated = subst (λ n. All (λ e. e.1 < n) live) (sym counts.same_next) h.allocated;
          stray = λ c l.
              let l' = subst (Lacks c) same l in
              let ne = ((Lacks-append c xs (e ∷ ys)).0 l').1.0 in
              untouched c (λ p. ne (here ∙ sym p)) ∙ h.stray c l;
        }

  -- Only counters changed: the books still balance.
  pub Books-counts :
      {capacity : ℕ} {extra : Option CachedResource} {live : List (CachedResourceKey × ℕ)}
      (s s' : CacheStorage lru)
      → Books lru capacity extra live s
      → CountsOnly s s'
      → Books lru capacity extra live s'
  Books-counts {live = live} s s' h counts =
      let cells : s'.cells ≡ s.cells = fun_ext counts.same_cells in
      record {
        conserved = rw (cells, counts.same_pool) h.conserved;
        gauges = λ g. rw (cells, counts.same_raised g, counts.same_lowered g) (h.gauges g);
        distinct = h.distinct;
        allocated = subst (λ n. All (λ e. e.1 < n) live) (sym counts.same_next) h.allocated;
        stray = λ c l. counts.same_cells c ∙ h.stray c l;
      }

  pub release-held :
      (s : CacheStorage lru) (cell : ℕ)
      → holds_cell (lru.entries s.cached_resources) cell ≡ true
      → release lru cell s ≡ done s
  unfolding release
  release-held s cell held = rw (held, release)

  pub release-lost :
      (s : CacheStorage lru) (cell : ℕ)
      → holds_cell (lru.entries s.cached_resources) cell ≡ false
      → release lru cell s ≡ drop_cell lru cell s
  unfolding release
  release-lost s cell lost = rw (lost, release)

  -- A request that has filled its cell ends without a panic, and the books balance: over the
  -- entries of the cache, if one of them is the cell's, and by the drop of the resource if not.
  pub settle :
      {capacity : ℕ} (bounded : capacity < u64_mod) (k : CachedResourceKey) (cell : ℕ)
      (r : CachedResource) (s s' : CacheStorage lru)
      → Books lru capacity (some r) (lru.entries s.cached_resources) s
      → s.cells cell ≡ none
      → cell < s.next_cell
      → CountsOnly (with_cell cell (some r) s) s'
      → (s'' : CacheStorage lru) × (release lru cell s' ≡ done s'')
        × (s''.cached_resources ≡ s.cached_resources)
        × Books lru capacity none (lru.entries s''.cached_resources) s''
        × (holds_cell (lru.entries s.cached_resources) cell ≡ true → s''.cells cell ≡ some r)
  settle {capacity} bounded k cell r s s' h empty lt counts =
      let es = lru.entries s.cached_resources in
      let same = counts.same_cache in
      elim (holds_cell_cases cell es) [
        | inl (lack, lost) ↦
            let (s'', ran, d, books) =
              drop_cell_lem lru bounded k cell [] es s'
                (Books-out k cell r es s s' h empty counts lt lack) in
            (
              s'',
              release-lost s' cell (rw same lost) ∙ ran,
              d.same_cache ∙ same,
              subst (λ c. Books lru capacity none (lru.entries c) s'') (sym (d.same_cache ∙ same))
                  books,
              λ held. absurd (cc (held, lost)),
            )
        | inr (e, xs, ys, at, here, held) ↦ (
          s',
          release-held s' cell (rw same held),
          same,
          subst (λ c. Books lru capacity none (lru.entries c) s') (sym same)
              (Books-in k cell r es s s' h empty counts e xs ys at here),
          λ _. filled k cell r es s s' h empty counts,
        )
      ]
