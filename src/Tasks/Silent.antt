-- ===== src/Tasks/Silent.antt =====
-- src/cache.rs, `Cache::get` by itself: the counters of the routes through its parts.
use server.Cache.{
  CacheStorage, CachedResourceKey, CachedResourceKey-discrete, is_stale, claim_cell, drop_cell,
  drop_entries, renew_cell, reserve_space, take_rest, evict, holds_cell, release,
}
use server.Cache.Evict.{popped, evict-empty}
use server.Cache.Settle.{release-held, release-lost}
use server.Cache.Totals.{get_last?-cases}
use server.Lru.{LruCache}
use server.Pool.{CacheCapacityReservation, reserve}
use server.Prelude.{
  ℕ, zero, suc, ◌≡◌, refl, sym, ◌∙◌, subst, inl, inr, Option, none, some, Option-cases, Bool-cases,
  List, [], ◌∷◌, done, bind-done, done-pair,
}
use server.Tasks.Claimed.{claim_cell-parts, renew_cell-stale, renew_cell-fresh}
use server.Tasks.Credits.{NamedCells, IsSilent, count_eviction-IsSilent, dropped-IsSilent}
use server.Tasks.Defs.{Job, Task, idle}
use server.Tasks.Rooms.{
  reserve_space-short, reserve_space-got, evict-some, after_evict, was_evicted,
}
use server.Tasks.Steps.{at_phase, dropped}
use server.Tasks.Tally.{Kept, silent-Kept, same-Kept}

module _ (lru : LruCache CachedResourceKey ℕ CachedResourceKey-discrete) where
  pub Kept-then : (s t u : CacheStorage lru) → Kept lru s t → Kept lru t u → Kept lru s u
  Kept-then s t u (a, _) (b, named) = ((λ c route. b c route ∙ a c route), named)

  module _ (job : Job) where
    pub drop_cell-Kept :
        (c : ℕ) (s s' : CacheStorage lru)
        → drop_cell lru c s ≡ done s'
        → NamedCells s.cells
        → Kept lru s s'
    unfolding dropped
    drop_cell-Kept c s s' ran named =
        let t : Task = at_phase job idle in
        silent-Kept lru s s' named
          (subst (λ r. IsSilent lru s (dropped lru t s r).1) ran (dropped-IsSilent lru t c s))

    pub drop_entries-Kept :
        (gone : List (CachedResourceKey × ℕ)) (s s' : CacheStorage lru)
        → drop_entries lru gone s ≡ done s'
        → NamedCells s.cells
        → Kept lru s s'
    unfolding drop_entries
    drop_entries-Kept [] s s' ran named =
        let is : s ≡ s' = cc ran in subst (Kept lru s) is (same-Kept lru s named)
    drop_entries-Kept (e ∷ gone) s s' ran named =
        let (s1, ran1, ran2) = bind-done (drop_cell lru e.1 s) (drop_entries lru gone) s' ran in
        let first = drop_cell-Kept e.1 s s1 ran1 named in
        Kept-then s s1 s' first (drop_entries-Kept gone s1 s' ran2 first.1)

    renew_cell-Kept :
        (k : CachedResourceKey) (now v c : ℕ) (s s' : CacheStorage lru)
        → renew_cell lru k now v s ≡ done (c, s')
        → NamedCells s.cells
        → Kept lru s s'
    renew_cell-Kept k now v c s s' ran named = elim (Bool-cases (is_stale (s.cells v) now)) [
      | inl stale ↦
          let (_, drops) = renew_cell-stale lru k now v c s s' stale ran in
          drop_entries-Kept ((k, v) ∷ []) _ s' drops named
      | inr fresh ↦
          let (_, is) = renew_cell-fresh lru k now v c s s' fresh ran in
          subst (Kept lru s) is (same-Kept lru s named)
    ]

    pub claim_cell-Kept :
        (k : CachedResourceKey) (now c : ℕ) (s s' : CacheStorage lru)
        → claim_cell lru k now s ≡ done (c, s')
        → NamedCells s.cells
        → Kept lru s s'
    claim_cell-Kept k now c s s' ran named =
        let (s1, drops, renews) = claim_cell-parts lru k now c s s' _ _ refl refl ran in
        let first = drop_entries-Kept _ _ s1 drops named in
        Kept-then s s1 s' first (renew_cell-Kept k now _ c s1 s' renews first.1)

    pub release-Kept :
        (c : ℕ) (s s' : CacheStorage lru)
        → release lru c s ≡ done s'
        → NamedCells s.cells
        → Kept lru s s'
    release-Kept c s s' ran named =
        elim (Bool-cases (holds_cell (lru.entries s.cached_resources) c)) [
          | inl held ↦
              let is : s ≡ s' = cc (release-held lru s c held, ran) in
              subst (Kept lru s) is (same-Kept lru s named)
          | inr lost ↦ drop_cell-Kept c s s' (sym (release-lost lru s c lost) ∙ ran) named
        ]

    pub reserve_space-Kept :
        (fuel size : ℕ) (s s' : CacheStorage lru) (reservation : CacheCapacityReservation)
        → reserve_space lru fuel size s ≡ done (reservation, s')
        → NamedCells s.cells
        → Kept lru s s'
    unfolding reserve_space take_rest
    reserve_space-Kept zero size s s' reservation ran named = absurd (cc ran)
    reserve_space-Kept (suc fuel) size s s' reservation ran named =
        elim (Option-cases (reserve s.capacity_pool size).0) [
          | inr (got, is) ↦
              let (_, same) =
                done-pair got reservation _ s'
                  (sym (reserve_space-got lru fuel size s got is) ∙ ran) in
              subst (Kept lru s) same ((λ c route. refl), named)
          | inl short ↦
              let (o, evicted, later) =
                bind-done (evict lru s) (after_evict lru fuel size s) (reservation, s')
                  (sym (reserve_space-short lru fuel size s short) ∙ ran) in
              elim (get_last?-cases (lru.entries s.cached_resources)) [
                | inl (nil, _) ↦
                    let is_none : o ≡ none = cc (evict-empty lru s nil, evicted) in
                    let taken : take_rest lru size s ≡ (reservation, s') = cc (
                      subst
                        (λ (y : Option (CacheStorage lru)).
                          after_evict lru fuel size s y ≡ done (reservation, s'))
                        is_none later) in
                    subst (λ (y : CacheCapacityReservation × CacheStorage lru). Kept lru s y.1)
                      taken ((λ c route. refl), named)
                | inr (e, last, same) ↦
                    let (s1, drops, is) =
                      bind-done (drop_cell lru e.1 (popped lru e s)) (was_evicted lru) o
                        (sym (evict-some lru s e last) ∙ evicted) in
                    let some_left : o ≡ some s1 = cc is in
                    let st = record s { cached_resources = (lru.pop_lru s.cached_resources).1 } in
                    let first =
                      silent-Kept lru st (popped lru e s) named
                        (count_eviction-IsSilent lru (s.cells e.1) st (named e.1)) in
                    let second = drop_cell-Kept e.1 (popped lru e s) s1 drops first.1 in
                    Kept-then s s1 s' (Kept-then s (popped lru e s) s1 first second) (
                      reserve_space-Kept fuel size s1 s' reservation
                        (subst
                          (λ (y : Option (CacheStorage lru)).
                            after_evict lru fuel size s y ≡ done (reservation, s'))
                          some_left later)
                        second.1)
              ]
        ]
