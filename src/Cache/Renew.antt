-- ===== src/Cache/Renew.antt =====
-- A request claims a cell: what the cache knows of its key, or an empty cell.
use mathlib.Core.List.{lookup}
use server.Cache.Claim.{IsValid, Claimed, Books-add, insert_cell-present, insert_cell-absent}
use server.Cache.Invariant.{drop_cell_lem}
use server.Cache.Storage.{CacheStorage, renew_cell, claim_cell}
use server.Cache.Types.{
  CachedResourceKey, CachedResourceKey-discrete, CachedResource, is_expired, is_stale,
}
use server.Lru.Entries.{overwritten-front}
use server.Lru.{LruCache}
use server.Pool.{u64_mod}
use server.Prelude.{
  ℕ, ◌<◌, ◌≡◌, Bool, ltb, arith, refl, sym, ◌∙◌, true, false, Option, none, some, [], ◌∷◌,
  if◌then◌else◌, done, inl, inr, Option-cases, Bool-cases,
}

-- A resource may be served if it has no expiry, and before its expiry.
abbrev in_time : Option ℕ → ℕ → Bool
in_time none now = true
in_time (some expires_at) now = ltb now expires_at

-- A resource that may be served at `now`.
unfoldable pub servable : Option CachedResource → ℕ → Option CachedResource
servable none now = none
servable (some r) now = if in_time r.expires_at now then some r else none

stale-late :
    (r : CachedResource) (now : ℕ) → is_stale (some r) now ≡ true → in_time r.expires_at now ≡ false
unfolding is_stale is_expired
stale-late r now h = elim (Option-cases r.expires_at) [
  | inl e ↦ absurd (ground (arith, h, e))
  | inr (t, e) ↦ rw e (ground (arith, h, e))
]

fresh-in_time :
    (r : CachedResource) (now : ℕ) → is_stale (some r) now ≡ false → in_time r.expires_at now ≡ true
unfolding is_stale is_expired
fresh-in_time r now h = elim (Option-cases r.expires_at) [
  | inl e ↦ rw e
  | inr (t, e) ↦ rw e (ground (arith, h, e))
]

servable-stale :
    (o : Option CachedResource) (now : ℕ) → is_stale o now ≡ true → servable o now ≡ none
unfolding servable
servable-stale none now h = refl
servable-stale (some r) now h = rw (stale-late r now h)

pub servable-fresh :
    (o : Option CachedResource) (now : ℕ) → is_stale o now ≡ false → servable o now ≡ o
unfolding servable
servable-fresh none now h = refl
servable-fresh (some r) now h = rw (fresh-in_time r now h)

servable-none : (now : ℕ) → servable none now ≡ none
unfolding servable
servable-none now = refl

module _ (lru : LruCache CachedResourceKey ℕ CachedResourceKey-discrete) where
  abbrev dec : Discrete CachedResourceKey
  dec = CachedResourceKey-discrete

  -- What the cache has for a key at `now`: the resource in the key's cell, unless it has expired.
  unfoldable pub peek : CachedResourceKey → ℕ → CacheStorage lru → Option CachedResource
  peek k now s = elim (lookup dec k (lru.entries s.cached_resources)) [
    | none ↦ none
    | some c ↦ servable (s.cells c) now
  ]

  module _ {capacity : ℕ} (bounded : capacity < u64_mod) (k : CachedResourceKey) (now cell : ℕ)
      (s : CacheStorage lru) (h : Claimed lru capacity k cell s) where
    renew_cell-fresh :
        is_stale (s.cells cell) now ≡ false → renew_cell lru k now cell s ≡ done (cell, s)
    unfolding renew_cell
    renew_cell-fresh e = rw (e, renew_cell)

    renew_cell-stale :
        is_stale (s.cells cell) now ≡ true
        → (s' : CacheStorage lru) × (renew_cell lru k now cell s ≡ done (s.next_cell, s'))
          × Claimed lru capacity k s.next_cell s'
          × (s'.cells s.next_cell ≡ none)
          × (s'.cache_dir ≡ s.cache_dir)
    unfolding renew_cell
    renew_cell-stale e =
        let new_cell = s.next_cell in
        let cache = lru.assign k new_cell s.cached_resources in
        let laws = lru.assign_lem k new_cell s.cached_resources in
        let (empty, added) = Books-add lru k ((k, cell) ∷ h.rest) s cache h.books in
        let (s', ran, d, books) =
          drop_cell_lem lru bounded k cell ((k, new_cell) ∷ []) h.rest _ added in
        (
          s',
          rw (e, renew_cell) (rw ran),
          record {
            rest = h.rest;
            front =
                rw d.same_cache
                  (laws.0 ∙ rw h.front (overwritten-front dec k new_cell h.rest cell));
            books = books;
            roomy = rw (d.same_cache, laws.1) h.roomy;
            bounded = rw (d.same_cache, laws.1) h.bounded;
          },
          d.others new_cell (λ p. added.distinct.0.0 (sym p)) ∙ empty,
          d.same_dir,
        )

    renew_cell_lem :
        (cell' : ℕ) × (s' : CacheStorage lru) × (renew_cell lru k now cell s ≡ done (cell', s'))
        × Claimed lru capacity k cell' s'
        × (s'.cells cell' ≡ servable (s.cells cell) now)
        × (s'.cache_dir ≡ s.cache_dir)
    renew_cell_lem = elim (Bool-cases (is_stale (s.cells cell) now)) [
      | inl stale ↦
          let (s', ran, claimed, empty, dir) = renew_cell-stale stale in
          (s.next_cell, s', ran, claimed, empty ∙ sym (servable-stale _ now stale), dir)
      | inr fresh ↦ (cell, s, renew_cell-fresh fresh, h, sym (servable-fresh _ now fresh), refl)
    ]

  -- A claim, on a valid storage of a capacity below 2^64, ends without a panic, keeps the books, and
  -- leaves the key in front. Its cell holds what the cache had for the key, if that has no expiry or
  -- one after `now`, and is empty otherwise.
  pub claim_cell-peek :
      {capacity : ℕ} (bounded : capacity < u64_mod) (k : CachedResourceKey) (now : ℕ)
      (s : CacheStorage lru)
      → IsValid lru capacity s
      → (cell : ℕ) × (s' : CacheStorage lru) × (claim_cell lru k now s ≡ done (cell, s'))
        × Claimed lru capacity k cell s'
        × (s'.cells cell ≡ peek k now s)
        × (s'.cache_dir ≡ s.cache_dir)
  unfolding claim_cell peek
  claim_cell-peek bounded k now s h =
      elim (Option-cases (lookup dec k (lru.entries s.cached_resources))) [
        | inl absent ↦
            let (s1, ran, empty, dir, claimed) = insert_cell-absent lru bounded k s h absent in
            let (cell, s2, ran', claimed', cells, dir') =
              renew_cell_lem bounded k now s.next_cell s1 claimed in
            (
              cell,
              s2,
              rw (ran, claim_cell) ran',
              claimed',
              cells ∙ rw (empty, absent, peek) (servable-none now),
              dir' ∙ dir,
            )
        | inr (v, present) ↦
            let (ran, claimed) = insert_cell-present lru bounded k v s h present in
            let (cell, s2, ran', claimed', cells, dir') =
              renew_cell_lem bounded k now v _ claimed in
            (cell, s2, rw (ran, claim_cell) ran', claimed', cells ∙ rw (present, peek), dir')
      ]
