-- ===== src/Tasks/Rounds.antt =====
-- src/cache.rs, `Cache::get` for many requests: whose files there are after a round of the loop, an
-- answer and a drop.
use server.Cache.Fill.{fetched}
use server.Cache.{
  CacheStorage, CachedResource, CachedResourceKey, CachedResourceKey-discrete, drop_cell, emit,
}
use server.Lru.{LruCache}
use server.Pool.{reserve, reserve_up_to}
use server.Prelude.{
  ℕ, ◌≡◌, refl, sym, ap, ◌∙◌, subst, inl, inr, Option, none, some, List, [], ◌∷◌, Bool, true, false,
  Bool-cases, Option-cases, Result, Result-cases, length, ok, err, String, ◌==◌,
}
use server.Tasks.Defs.{
  Job, Phase, System, idle, fetching, reserving, wants_eviction, taking, responding,
}
use server.Tasks.Honest.{is_active, Honest, Sourced, IsLess, Sourced-less, IsLess-same}
use server.Tasks.Invariant.{In, Sound}
use server.Tasks.Steps.{at_phase, update, try_reserve, take_all, counted, dropped, fetched_phase}
use server.Upstream.{UpstreamError, UpstreamResourceHeaders}
use server.Tasks.Carried.{Gave, goes, store-Sourced, pop-Sourced}
use server.Tasks.Losses.{drop_cell-cases}

module _ (lru : LruCache CachedResourceKey ℕ CachedResourceKey-discrete) where
  module _ (Asked : Job → Type 0)
      (Good : CachedResourceKey → UpstreamResourceHeaders → List ℕ → Type 0) (dir : String)
      (gives : (job : Job) (headers : UpstreamResourceHeaders) (file : List ℕ)
        → Asked job
        → Gave dir job headers file
        → Good job.key headers file)
      {capacity : ℕ} (s : System lru) (h : Sound lru capacity s) (hs : Sourced Asked Good lru dir s)
      (i : ℕ) (job : Job) where
    abbrev Less : CacheStorage lru → Type 0
    Less st = IsLess Asked Good lru dir s hs i st

    abbrev Holding : System lru → Type 0
    Holding x = Sourced Asked Good lru dir x

    pub try_reserve-Sourced :
        (locked : Bool) (c : ℕ) (headers : UpstreamResourceHeaders) (file : List ℕ)
        → s.tasks i ≡ at_phase job (reserving locked c headers file)
        → Holding (update lru s i (try_reserve lru job locked c headers file s.storage))
    unfolding try_reserve
    try_reserve-Sourced locked c headers file e =
        let busy : is_active (reserving locked c headers file) ≡ true = refl in
        let pool = (reserve s.storage.capacity_pool (length file)).1 in
        elim (Option-cases (reserve s.storage.capacity_pool (length file)).0) [
          | inr (reservation, got) ↦
              rw (got, try_reserve)
                (store-Sourced lru Asked Good dir gives s h hs i job
                  (reserving locked c headers file) c headers file reservation pool e busy refl
                  refl)
          | inl short ↦ elim (Bool-cases locked) [
            | inl yes_locked ↦
                rw (short, try_reserve)
                  (rw yes_locked (
                    pop-Sourced lru Asked Good dir gives s h hs i job
                      (reserving locked c headers file) c headers file e busy refl refl))
            | inr unlocked ↦
                rw (short, try_reserve)
                  (rw unlocked (
                    goes lru Asked Good dir gives s h hs i job (reserving locked c headers file)
                      (wants_eviction c headers file) [] s.storage e busy
                      (IsLess-same Asked Good lru dir s hs i) (λ d q. q) (λ hd f q. inl q)))
          ]
        ]

    pub take_all-Sourced :
        (c : ℕ) (headers : UpstreamResourceHeaders) (file : List ℕ)
        → s.tasks i ≡ at_phase job (taking c headers file)
        → Holding (update lru s i (take_all lru job c headers file s.storage))
    unfolding take_all
    take_all-Sourced c headers file e =
        let (reservation, pool) = reserve_up_to s.storage.capacity_pool (length file) in
        store-Sourced lru Asked Good dir gives s h hs i job (taking c headers file) c headers file
          reservation pool e refl refl refl

    pub fetched-Sourced :
        (c : ℕ)
        → s.tasks i ≡ at_phase job (fetching c)
        → Holding (
            update lru s i (
              at_phase job (
                  fetched_phase c
                    (fetched job.outside s.storage.cache_dir (job.outside.upstream job.key.path))),
              s.storage,
            ))
    unfolding fetched_phase
    fetched-Sourced c e =
        let busy : is_active (fetching c) ≡ true = refl in
        let asked = (subst (Honest Asked Good s.storage.cells) e (hs.honest i)).asked busy in
        elim (Result-cases
          (fetched job.outside s.storage.cache_dir (job.outside.upstream job.key.path))) [
            | inr (error, failed) ↦
                rw (failed, fetched_phase)
                  (goes lru Asked Good dir gives s h hs i job (fetching c)
                    (responding c (err error)) [] s.storage e busy
                    (IsLess-same Asked Good lru dir s hs i) (λ d q. q) (λ hd f q. absurd (cc (q))))
            | inl ((headers, file), got) ↦
                let gave : Gave dir job headers file =
                  subst
                    (λ d.
                      fetched job.outside d (job.outside.upstream job.key.path)
                      ≡ ok (headers, file))
                    hs.same_dir got in
                let good = gives job headers file asked gave in
                rw (got, fetched_phase)
                  (goes lru Asked Good dir gives s h hs i job (fetching c)
                    (reserving false c headers file) [] s.storage e busy
                    (IsLess-same Asked Good lru dir s hs i) (λ d q. q)
                    (λ hd f q. inr (
                      subst (λ (x : UpstreamResourceHeaders × List ℕ). Good job.key x.0 x.1)
                        (cc (q)) good)))
          ]

    pub counted-same :
        (result : Result (Option UpstreamError) CachedResource)
        → ((counted lru job result s.storage).cells ≡ s.storage.cells)
          × ((counted lru job result s.storage).cached_resources ≡ s.storage.cached_resources)
          × ((counted lru job result s.storage).cache_dir ≡ s.storage.cache_dir)
    unfolding counted emit
    counted-same (err none) = (refl, refl, refl)
    counted-same (err (some error)) = (refl, refl, refl)
    counted-same (ok r) = elim (Bool-cases (r.id == job.outside.new_v4)) [
      | inl its ↦ rw its (refl, refl, refl)
      | inr other ↦ rw other (refl, refl, refl)
    ]

    pub leaves-Sourced :
        (old : Phase) (c : ℕ) (st : CacheStorage lru)
        → s.tasks i ≡ at_phase job old
        → is_active old ≡ true
        → (st.cells ≡ s.storage.cells)
          × (st.cached_resources ≡ s.storage.cached_resources)
          × (st.cache_dir ≡ s.storage.cache_dir)
        → Holding (update lru s i (record { job = job; phase = idle; drops = c ∷ [] }, st))
    leaves-Sourced old c st e busy (cells, cache, dirs) =
        goes lru Asked Good dir gives s h hs i job old idle (c ∷ []) st e busy
          (
            dirs,
            (λ d r full. sym (ap (λ (y : ℕ → Option CachedResource). y d) cells) ∙ full),
            λ x m. inl (subst (λ (y : lru.State). In x (lru.entries y)) cache m),
          )
          (λ d q. absurd (cc (q))) (λ hd f q. absurd (cc (q)))

    -- The same task, but for what it has to drop.
    pub same_task :
        (rest : List ℕ) → Honest Asked Good s.storage.cells (record (s.tasks i) { drops = rest })
    same_task rest = record {
      asked = (hs.honest i).asked;
      shown = (hs.honest i).shown;
      carried = (hs.honest i).carried;
    }

    pub drops_last-Sourced :
        (c : ℕ) (rest : List ℕ)
        → Holding (
            update lru s i (
              dropped lru
                (record (s.tasks i) { drops = rest })
                s.storage
                (drop_cell lru c s.storage)))
    unfolding dropped
    drops_last-Sourced c rest = elim (drop_cell-cases lru c s.storage) [
      | inl (st, ran, dirs, cache, lost) ↦
          rw (ran, dropped)
            (Sourced-less Asked Good lru dir s hs i (record (s.tasks i) { drops = rest }) st
              (dirs, lost, λ x m. inl (subst (λ (y : lru.State). In x (lru.entries y)) cache m))
              (record {
                asked = (hs.honest i).asked;
                shown = λ d r q full. (hs.honest i).shown d r q (lost d r full);
                carried = (hs.honest i).carried;
              }))
      | inr panics ↦
          rw (panics, dropped)
            (Sourced-less Asked Good lru dir s hs i _ s.storage
              (IsLess-same Asked Good lru dir s hs i)
              (record {
                asked = λ p. absurd (cc (p));
                shown = λ d r q full. absurd (cc (q));
                carried = λ hd f q. absurd (cc (q));
              }))
    ]
