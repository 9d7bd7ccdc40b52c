-- ===== src/Tasks/Rooms.antt =====
-- src/cache.rs, the loop of `create_cached_resource`, by itself and for a task alone.
use server.Cache.Claim.{IsValid}
use server.Cache.Evict.{count_eviction-same, evict-empty, popped}
use server.Cache.Totals.{get_last?-cases, Distinct-middle, Lacks, Lacks-append}
use server.Cache.{
  CacheStorage, CachedResource, CachedResourceKey, CachedResourceKey-discrete, drop_cell, evict,
  take_rest, reserve_space,
}
use server.Cache.Invariant.{drop_empty}
use server.Lru.{LruCache, get_last?, drop_last}
use server.Pool.{u64_mod, CacheCapacityReservation, reserve}
use server.Prelude.{
  ℕ, zero, suc, ◌≡◌, ◌<◌, refl, sym, ap, ◌∙◌, subst, inl, inr, Option, none, some, List, [], ◌∷◌,
  ◌++◌, append_assoc, length, Bool, true, false, Option-cases, ℕ_discrete, Run, done, ◌>>=◌,
  bind-done, done-pair,
}
use server.Tasks.Alone.{At, go, nobody, keeps, lets_go}
use server.Tasks.Losses.{drop_cell-kept}
use server.Tasks.Defs.{Job, Task, System, reserving, wants_eviction, taking, has_lock}
use server.Tasks.Invariant.{entries}
use server.Tasks.Members.{holds_cell-Lacks}
use server.Tasks.Safety.{Reach-Sound, start-Sound}
use server.Tasks.Steps.{
  reserves, evicts, takes, AllIdle, try_reserve, take_all, pop, store, at_phase,
}
use server.Upstream.{UpstreamResourceHeaders}

module _ (lru : LruCache CachedResourceKey ℕ CachedResourceKey-discrete) where
  abbrev pub after_evict :
      ℕ
      → ℕ
      → CacheStorage lru
      → Option (CacheStorage lru)
      → Run (CacheCapacityReservation × CacheStorage lru)
  after_evict fuel size s none = done (take_rest lru size s)
  after_evict fuel size s (some s') = reserve_space lru fuel size s'

  abbrev pub was_evicted : CacheStorage lru → Run (Option (CacheStorage lru))
  was_evicted s = done (some s)

  pub reserve_space-short :
      (fuel size : ℕ) (s : CacheStorage lru)
      → (reserve s.capacity_pool size).0 ≡ none
      → reserve_space lru (suc fuel) size s ≡ evict lru s >>= after_evict fuel size s
  unfolding reserve_space
  reserve_space-short fuel size s short = rw (short, reserve_space) refl

  pub reserve_space-got :
      (fuel size : ℕ) (s : CacheStorage lru) (reservation : CacheCapacityReservation)
      → (reserve s.capacity_pool size).0 ≡ some reservation
      → reserve_space lru (suc fuel) size s
        ≡ done (reservation, record s { capacity_pool = (reserve s.capacity_pool size).1 })
  unfolding reserve_space
  reserve_space-got fuel size s reservation got = rw (got, reserve_space) refl

  pub evict-some :
      (s : CacheStorage lru) (e : CachedResourceKey × ℕ)
      → get_last? (entries lru s) ≡ some e
      → evict lru s ≡ drop_cell lru e.1 (popped lru e s) >>= was_evicted
  unfolding evict
  evict-some s e last = rw ((lru.pop_lru_lem s.cached_resources).0 ∙ last, evict) refl

  -- Popping an empty cache changes nothing.
  abbrev pub PopsNothing : Type 0
  PopsNothing = (l : lru.State) → (lru.pop_lru l).0 ≡ none → (lru.pop_lru l).1 ≡ l

  module _ {capacity : ℕ} (bounded : capacity < u64_mod) (start : System lru)
      (valid : IsValid lru capacity start.storage) (rest : AllIdle lru start) (pops : PopsNothing)
      (i : ℕ) (job : Job) (c : ℕ) (headers : UpstreamResourceHeaders) (file : List ℕ) where
    abbrev AtPair : Task × CacheStorage lru → Type 0
    AtPair x = At lru start i x.0 x.1

    abbrev AtRound : Bool → CacheStorage lru → Type 0
    AtRound locked st = AtPair (at_phase job (reserving locked c headers file), st)

    tries :
        (locked : Bool) (st : CacheStorage lru)
        → AtRound locked st
        → AtPair (try_reserve lru job locked c headers file st)
    tries locked st at =
        let x = try_reserve lru job locked c headers file st in
        go lru start i _ x.0 st x.1
          (λ tasks own others. reserves i job locked c headers file own refl) at

    pops-At :
        (locked : Bool) (st : CacheStorage lru)
        → (reserve st.capacity_pool (length file)).0 ≡ none
        → AtRound locked st
        → AtPair (pop lru job c headers file st)
    unfolding try_reserve
    pops-At true st short at =
        let x = pop lru job c headers file st in
        let same : try_reserve lru job true c headers file st ≡ x = rw (short, try_reserve) refl in
        subst AtPair same (tries true st at)
    pops-At false st short at =
        let x = pop lru job c headers file st in
        let t : Task = at_phase job (wants_eviction c headers file) in
        let same : try_reserve lru job false c headers file st ≡ (t, st) =
          rw (short, try_reserve) refl in
        go lru start i t x.0 st x.1
          (λ tasks own others.
            evicts i job c headers file own
              (nobody lru start i has_lock (wants_eviction c headers file) tasks job refl refl own
                others)
              refl)
          (subst AtPair same (tries false st at))

    -- The entry that is popped is nowhere else in the cache.
    popped-Lacks :
        (t : Task) (st : CacheStorage lru) (e : CachedResourceKey × ℕ)
        → At lru start i t st
        → entries lru st ≡ drop_last (entries lru st) ++ e ∷ []
        → Lacks e.1 (drop_last (entries lru st))
    popped-Lacks t st e (tasks, reach, own, others) same =
        let h = Reach-Sound lru bounded (start-Sound lru start valid rest) reach in
        let xs = drop_last (entries lru st) in
        let split : entries lru st ++ h.orphans ≡ xs ++ e ∷ h.orphans =
          ap (λ l. l ++ h.orphans) same ∙ append_assoc xs (e ∷ []) h.orphans in
        ((Lacks-append e.1 xs h.orphans).0
          (Distinct-middle e xs h.orphans (rw (sym split) h.books.distinct)).1).0

    popped-At :
        (st : CacheStorage lru) (e : CachedResourceKey × ℕ)
        → get_last? (entries lru st) ≡ some e
        → AtPair (pop lru job c headers file st)
        → AtPair (
          record { job = job; phase = reserving true c headers file; drops = e.1 ∷ [] },
          popped lru e st,
        )
    unfolding pop
    popped-At st e last at =
        let same : pop lru job c headers file st ≡ (
          record { job = job; phase = reserving true c headers file; drops = e.1 ∷ [] },
          popped lru e st,
        ) =
          rw ((lru.pop_lru_lem st.cached_resources).0 ∙ last, pop) refl in
        subst AtPair same at

    -- What was popped goes: the cell that the task fills, or a cell that nobody has.
    evicted-At :
        (st st' : CacheStorage lru) (e : CachedResourceKey × ℕ)
        → Lacks e.1 (drop_last (entries lru st))
        → st.cells c ≡ none
        → drop_cell lru e.1 (popped lru e st) ≡ done st'
        → AtPair (
          record { job = job; phase = reserving true c headers file; drops = e.1 ∷ [] },
          popped lru e st,
        )
        → AtRound true st' × (st'.cells c ≡ none)
    evicted-At st st' e lacks blank ran at =
        let st1 = record st { cached_resources = (lru.pop_lru st.cached_resources).1 } in
        let (cells, cache, _, _) = count_eviction-same lru (st.cells e.1) st1 in
        let at_cell : (d : ℕ) → (popped lru e st).cells d ≡ st.cells d =
          λ d. ap (λ (y : ℕ → Option CachedResource). y d) cells in
        let empty : st'.cells c ≡ none = elim (Option-cases (st'.cells c)) [
          | inl q ↦ q
          | inr (r, full) ↦
              absurd (cc ((drop_cell-kept lru e.1 _ st' ran).1 c r full, at_cell c, blank))
        ] in
        elim (ℕ_discrete e.1 c) [
          | yes p ↦
              let none_there : (popped lru e st).cells e.1 ≡ none =
                at_cell e.1 ∙ ap st.cells p ∙ blank in
              let same : popped lru e st ≡ st' =
                cc (drop_empty lru e.1 (popped lru e st) none_there, ran) in
              (
                subst (AtRound true) same (
                    keeps lru start i _ e.1 [] (popped lru e st) refl (inr (inl (ap some (sym p))))
                      at),
                empty,
              )
          | no p ↦
              let left = ap lru.entries cache ∙ (lru.pop_lru_lem st.cached_resources).1 in
              (
                lets_go lru start i _ e.1 [] (popped lru e st) st' refl
                    (holds_cell-Lacks e.1 _ (subst (Lacks e.1) (sym left) lacks))
                    (λ held. elim held [ inl q ↦ p (cc q) | inr m ↦ absurd m ]) ran at,
                empty,
              )
        ]

    -- On an empty cache the task takes what is left.
    takes-At :
        (st : CacheStorage lru)
        → entries lru st ≡ []
        → AtPair (pop lru job c headers file st)
        → AtPair (take_all lru job c headers file st)
    unfolding pop get_last?
    takes-At st nil at =
        let none_popped = (lru.pop_lru_lem st.cached_resources).0 ∙ ap get_last? nil in
        let t : Task = at_phase job (taking c headers file) in
        let x = take_all lru job c headers file st in
        let same : pop lru job c headers file st
            ≡ (t, record st { cached_resources = (lru.pop_lru st.cached_resources).1 }) =
          rw (none_popped, pop) refl in
        let kept : record st { cached_resources = (lru.pop_lru st.cached_resources).1 } ≡ st =
          ap (λ (y : lru.State). record st { cached_resources = y })
            (pops st.cached_resources none_popped) in
        go lru start i t x.0 st x.1 (λ tasks own others. takes i job c headers file own refl)
          (subst (At lru start i t) kept (subst AtPair same at))

    -- From a round of the loop the task comes to where the loop by itself ends.
    pub makes_room :
        (fuel : ℕ) (locked : Bool) (st st' : CacheStorage lru)
        (reservation : CacheCapacityReservation)
        → reserve_space lru fuel (length file) st ≡ done (reservation, st')
        → st.cells c ≡ none
        → AtRound locked st
        → AtPair (store lru job c headers file reservation st')
    unfolding reserve_space try_reserve take_all take_rest
    makes_room zero locked st st' reservation ran blank at = absurd (cc ran)
    makes_room (suc fuel) locked st st' reservation ran blank at =
        let size = length file in
        elim (Option-cases (reserve st.capacity_pool size).0) [
          | inr (got, is) ↦
              let (a, b) =
                done-pair got reservation _ st'
                  (sym (reserve_space-got fuel size st got is) ∙ ran) in
              let same : try_reserve lru job locked c headers file st
                  ≡ store lru job c headers file got
                      (record st { capacity_pool = (reserve st.capacity_pool size).1 }) =
                rw (is, try_reserve) refl in
              subst (λ (r : CacheCapacityReservation). AtPair (store lru job c headers file r st'))
                a
                (subst (λ (y : CacheStorage lru). AtPair (store lru job c headers file got y)) b
                  (subst AtPair same (tries locked st at)))
          | inl short ↦
              let (o, evicted, later) =
                bind-done (evict lru st) (after_evict fuel size st) (reservation, st')
                  (sym (reserve_space-short fuel size st short) ∙ ran) in
              let at1 = pops-At locked st short at in
              elim (get_last?-cases (entries lru st)) [
                | inl (nil, _) ↦
                    let is_none : o ≡ none = cc (evict-empty lru st nil, evicted) in
                    let taken : take_rest lru size st ≡ (reservation, st') = cc (
                      subst
                        (λ (y : Option (CacheStorage lru)).
                          after_evict fuel size st y ≡ done (reservation, st'))
                        is_none later) in
                    subst
                      (λ (y : CacheCapacityReservation × CacheStorage lru).
                        AtPair (store lru job c headers file y.0 y.1))
                      taken (takes-At st nil at1)
                | inr (e, last, same) ↦
                    let (st1, dropped_one, is) =
                      bind-done (drop_cell lru e.1 (popped lru e st)) was_evicted o
                        (sym (evict-some st e last) ∙ evicted) in
                    let some_left : o ≡ some st1 = cc is in
                    let (at2, blank') =
                      evicted-At st st1 e (popped-Lacks _ st e at same) blank dropped_one
                        (popped-At st e last at1) in
                    makes_room fuel true st1 st' reservation
                      (subst
                        (λ (y : Option (CacheStorage lru)).
                          after_evict fuel size st y ≡ done (reservation, st'))
                        some_left later)
                      blank' at2
              ]
        ]
