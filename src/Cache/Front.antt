-- ===== src/Cache/Front.antt =====
-- src/cache.rs: the entry that a request has put in front of the cache.
use mathlib.Core.List.{lookup}
use server.Cache.Get.{holds_cell}
use server.Cache.Invariant.{Books, reserved_in}
use server.Cache.Renew.{peek, servable}
use server.Cache.Settle.{CountsOnly}
use server.Cache.Storage.{CacheStorage, set_cell}
use server.Cache.Totals.{total, total-cons}
use server.Cache.Types.{CachedResourceKey, CachedResourceKey-discrete, CachedResource}
use server.Lru.{LruCache}
use server.Prelude.{
  ℕ, ◌+◌, ◌<◌, ◌≤◌, ◌≡◌, refl, ap, ◌∙◌, Option, none, some, List, [], ◌∷◌, ◌++◌, arith, ◌⊎◌, inl,
  inr, if_pos, if_neg, ℕ_discrete, true,
}

-- The entry in front.
lookup-front :
    (k : CachedResourceKey) (c : ℕ) (es : List (CachedResourceKey × ℕ))
    → lookup CachedResourceKey-discrete k ((k, c) ∷ es) ≡ some c
unfolding lookup
lookup-front k c es = if_pos (CachedResourceKey-discrete k k) refl _ _

pub holds_cell-front :
    (k : CachedResourceKey) (c : ℕ) (es : List (CachedResourceKey × ℕ))
    → holds_cell ((k, c) ∷ es) c ≡ true
unfolding holds_cell
holds_cell-front k c es = ground arith

pub set_cell-same :
    (cells : ℕ → Option CachedResource) (c d : ℕ) → set_cell cells c (cells c) d ≡ cells d
set_cell-same cells c d = elim (ℕ_discrete c d) [
  | yes p ↦ if_pos (ℕ_discrete c d) p _ _ ∙ ap cells p
  | no p ↦ if_neg (ℕ_discrete c d) p _ _
]

module _ (lru : LruCache CachedResourceKey ℕ CachedResourceKey-discrete) where
  entries : CacheStorage lru → List (CachedResourceKey × ℕ)
  entries s = lru.entries s.cached_resources

  pub peek-front :
      (k : CachedResourceKey) (cell : ℕ) (rest : List (CachedResourceKey × ℕ)) (now : ℕ)
      (s : CacheStorage lru) (r : CachedResource)
      → lru.entries s.cached_resources ≡ (k, cell) ∷ rest
      → s.cells cell ≡ some r
      → peek lru k now s ≡ servable (some r) now
  unfolding peek
  peek-front k cell rest now s r front full =
      rw (ap (lookup CachedResourceKey-discrete k) front ∙ lookup-front k cell rest, peek) (rw full)

  -- A cell that is overwritten by what it holds.
  pub CountsOnly-same :
      (c : ℕ) (s s' : CacheStorage lru)
      → CountsOnly lru (record s { cells = set_cell s.cells c (s.cells c) }) s'
      → CountsOnly lru s s'
  CountsOnly-same c s s' h = record {
    same_cells = λ d. h.same_cells d ∙ set_cell-same s.cells c d;
    same_cache = h.same_cache;
    same_next = h.same_next;
    same_pool = h.same_pool;
    same_raised = h.same_raised;
    same_lowered = h.same_lowered;
  }

  -- The cell of the request is evicted only for a file that the whole capacity does not hold.
  pub front_kept :
      (capacity size : ℕ) (k : CachedResourceKey) (cell : ℕ)
      (rest es dropped : List (CachedResourceKey × ℕ)) (s : CacheStorage lru)
      → Books lru capacity none ((k, cell) ∷ rest) s
      → s.cells cell ≡ none
      → (k, cell) ∷ rest ≡ es ++ dropped
      → ((dropped ≡ [])
          ⊎ ((e : CachedResourceKey × ℕ) × (ds : List (CachedResourceKey × ℕ)) × (dropped ≡ e ∷ ds)
              × (s.capacity_pool.available_capacity + total reserved_in s.cells ds < size)))
      → size ≤ capacity
      → (rest' : List (CachedResourceKey × ℕ)) × (es ≡ (k, cell) ∷ rest')
  front_kept capacity size k cell rest [] dropped s h empty same (inl nil) fits = absurd (cc)
  front_kept capacity size k cell rest [] dropped s h empty same (inr (e, ds, is, short)) fits =
      let ds_rest : rest ≡ ds = cc in
      let w : reserved_in (s.cells cell) ≡ 0 = rw empty in
      absurd (
        omega (
          arith,
          h.conserved,
          short,
          fits,
          w,
          total-cons reserved_in s.cells (k, cell) rest,
          ap (total reserved_in s.cells) ds_rest,
        ))
  front_kept capacity size k cell rest (f ∷ fs) dropped s h empty same least fits = (fs, cc)
