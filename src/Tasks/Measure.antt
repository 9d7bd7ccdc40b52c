-- ===== src/Tasks/Measure.antt =====
-- src/cache.rs, `Cache::get` for many requests: the work that is left, and what steps take of it.
use server.Cache.Evict.{count_eviction-same}
use server.Cache.Totals.{get_last?-cases}
use server.Cache.{
  CacheStorage, CachedResource, CachedResourceKey, CachedResourceKey-discrete, count_eviction,
  drop_cell, emit,
}
use server.Lru.{LruCache, touched, pushed_out, drop_last}
use server.Pool.{CacheCapacityPool, CacheCapacityReservation, reserve, reserve_up_to}
use server.Prelude.{
  ℕ, ◌+◌, ◌*◌, ◌<◌, ◌≤◌, ◌≡◌, refl, sym, ap, ◌∙◌, subst, inl, inr, arith, dec_le, Option, none,
  some, List, [], ◌∷◌, length, length-append, Bool, true, false, Bool-cases, Option-cases, Result,
  ok, err, if◌then◌else◌, ◌==◌,
}
use server.Tasks.Losses.{drop_cell-cases}
use server.Tasks.Claims.{claim-cases}
use server.Tasks.Inserted.{inserted}
use server.Tasks.Defs.{
  Job, Phase, Task, System, idle, wants_lock, claimed, waiting, fetching, reserving, wants_eviction,
  taking, responding,
}
use server.Tasks.Invariant.{entries, set_task_other}
use server.Tasks.Search.{IsQuiet}
use server.Tasks.Progress.{goes_on}
use server.Tasks.Steps.{
  Step, begin, claims, unlocks, finds, inits, fetches, reserves, evicts, takes, responds,
  cancels_lock, cancels, drops_one, drops_last, at_phase, update, claim, pop, store, try_reserve,
  take_all, counted, dropped, fetched_phase, new_resource,
}
use server.Upstream.{UpstreamError, UpstreamResourceHeaders}
use server.Tasks.Costs.{
  rank, cost, sum_below, sum_changed, length-overwritten, length-touched, length-cells,
}

module _ (lru : LruCache CachedResourceKey ℕ CachedResourceKey-discrete) where
  abbrev count : CacheStorage lru → ℕ
  count st = length (entries lru st)

  -- The work that is left to the tasks below n, and to the entries.
  abbrev pub work_left : ℕ → System lru → ℕ
  work_left n s = sum_below n (λ j. cost (s.tasks j)) + 2 * count s.storage

  -- The task is busy, and has less to do after the step, the entries included.
  abbrev IsCheaper : System lru → ℕ → Task × CacheStorage lru → Type 0
  IsCheaper s i (t, st) =
      (0 < cost (s.tasks i)) × (cost t + 2 * count st < cost (s.tasks i) + 2 * count s.storage)

  counted-count :
      (job : Job) (result : Result (Option UpstreamError) CachedResource) (st : CacheStorage lru)
      → count (counted lru job result st) ≡ count st
  unfolding counted emit
  counted-count job (err none) st = refl
  counted-count job (err (some error)) st = refl
  counted-count job (ok r) st = elim (Bool-cases (r.id == job.outside.new_v4)) [
    | inl its ↦ rw its refl
    | inr other ↦ rw other refl
  ]

  module _ (s : System lru) (i : ℕ) (job : Job) where
    -- The entries stay, and the rank goes down.
    lower_rank :
        (old phase : Phase) (drops : List ℕ) (st : CacheStorage lru)
        → s.tasks i ≡ at_phase job old
        → rank phase + length drops < rank old
        → count st ≡ count s.storage
        → IsCheaper s i (record { job = job; phase = phase; drops = drops }, st)
    lower_rank old phase drops st e less same =
        let was : cost (s.tasks i) ≡ rank old + 0 = ap cost e in
        (omega (arith, was, less), omega (arith, was, less, same))

    pub claim-IsCheaper :
        s.tasks i ≡ at_phase job wants_lock → IsCheaper s i (claim lru job s.storage)
    claim-IsCheaper e =
        let was : cost (s.tasks i) ≡ 13 = ap cost e in
        let n = s.storage.next_cell in
        let es = entries lru s.storage in
        let dec = CachedResourceKey-discrete in
        let c0 = lru.cap s.storage.cached_resources in
        let laws = lru.get_or_insert_lem job.key n s.storage.cached_resources in
        let st = inserted lru job.key s.storage in
        let gone = (lru.get_or_insert_mut_ref job.key n s.storage.cached_resources).1 in
        let within = length-touched dec job.key n c0 es in
        let left : count st ≡ length (touched dec job.key n c0 es) = ap length laws.2 in
        let out : length gone ≡ length (pushed_out dec job.key c0 es) = ap length laws.1 in
        elim (claim-cases lru job s.storage _ _ refl refl) [
          | inl fresh ↦
              subst (λ x. IsCheaper s i x) (sym fresh)
                (omega (arith, was), omega (arith, was, within, left, out, length-cells gone))
          | inr stale ↦
              let assigned : length (lru.entries (lru.assign job.key (n + 1) st.cached_resources))
                  ≡ count st =
                ap length (lru.assign_lem job.key (n + 1) st.cached_resources).0
                ∙ length-overwritten dec job.key (n + 1) (entries lru st) in
              subst (λ x. IsCheaper s i x) (sym stale)
                (
                  omega (arith, was),
                  omega (arith, was, within, left, out, length-cells gone, assigned),
                )
        ]

    store-IsCheaper :
        (old : Phase) (c : ℕ) (headers : UpstreamResourceHeaders) (file : List ℕ)
        (reservation : CacheCapacityReservation) (pool : CacheCapacityPool)
        → s.tasks i ≡ at_phase job old
        → 2 < rank old
        → IsCheaper s i
            (store lru job c headers file reservation (record s.storage { capacity_pool = pool }))
    unfolding store emit
    store-IsCheaper old c headers file reservation pool e more =
        lower_rank old (responding c (ok (new_resource job headers file reservation))) []
          (store lru job c headers file reservation (record s.storage { capacity_pool = pool })).1 e
          (omega (arith, more)) refl

    -- The entry that goes pays for the round.
    pub pop-IsCheaper :
        (old : Phase) (c : ℕ) (headers : UpstreamResourceHeaders) (file : List ℕ)
        → s.tasks i ≡ at_phase job old
        → 3 < rank old
        → IsCheaper s i (pop lru job c headers file s.storage)
    unfolding pop drop_last
    pop-IsCheaper old c headers file e more =
        let was : cost (s.tasks i) ≡ rank old + 0 = ap cost e in
        let es = entries lru s.storage in
        let laws = lru.pop_lru_lem s.storage.cached_resources in
        let st = record s.storage {
          cached_resources = (lru.pop_lru s.storage.cached_resources).1;
        } in
        elim (get_last?-cases es) [
          | inl (nil, last) ↦
              rw (laws.0 ∙ last, pop)
                (lower_rank old (taking c headers file) [] st e (omega (arith, more))
                  (ap length (laws.1 ∙ ap drop_last nil ∙ sym nil)))
          | inr (f, last, split) ↦
              let (_, cache, _, _) = count_eviction-same lru (s.storage.cells f.1) st in
              let left : count (count_eviction lru (s.storage.cells f.1) st)
                  ≡ length (drop_last es) =
                ap (λ (x : lru.State). length (lru.entries x)) cache ∙ ap length laws.1 in
              let shorter = ap length split in
              rw (laws.0 ∙ last, pop)
                (
                  omega (arith, was, more),
                  omega (arith, was, more, left, shorter, length-append (drop_last es) (f ∷ [])),
                )
        ]

    pub try_reserve-IsCheaper :
        (locked : Bool) (c : ℕ) (headers : UpstreamResourceHeaders) (file : List ℕ)
        → s.tasks i ≡ at_phase job (reserving locked c headers file)
        → IsCheaper s i (try_reserve lru job locked c headers file s.storage)
    unfolding try_reserve
    try_reserve-IsCheaper locked c headers file e =
        let pool = (reserve s.storage.capacity_pool (length file)).1 in
        elim (Option-cases (reserve s.storage.capacity_pool (length file)).0) [
          | inr (reservation, got) ↦
              rw (got, try_reserve)
                (store-IsCheaper (reserving locked c headers file) c headers file reservation pool e
                  (reserving_rank locked c headers file))
          | inl short ↦ rw (short, try_reserve) (no_room locked e)
        ]
      where
        reserving_rank :
            (b : Bool) (d : ℕ) (hd : UpstreamResourceHeaders) (f : List ℕ)
            → 2 < rank (reserving b d hd f)
        reserving_rank true d hd f = omega arith
        reserving_rank false d hd f = omega arith

        no_room :
            (b : Bool)
            → s.tasks i ≡ at_phase job (reserving b c headers file)
            → IsCheaper s i (
                if b then pop lru job c headers file s.storage else (
                  record { job = job; phase = wants_eviction c headers file; drops = [] },
                  s.storage,
                ))
        no_room true e =
            pop-IsCheaper (reserving true c headers file) c headers file e (omega arith)
        no_room false e =
            lower_rank (reserving false c headers file) (wants_eviction c headers file) [] s.storage
              e (omega arith) refl

    pub take_all-IsCheaper :
        (c : ℕ) (headers : UpstreamResourceHeaders) (file : List ℕ)
        → s.tasks i ≡ at_phase job (taking c headers file)
        → IsCheaper s i (take_all lru job c headers file s.storage)
    unfolding take_all
    take_all-IsCheaper c headers file e =
        let (reservation, pool) = reserve_up_to s.storage.capacity_pool (length file) in
        store-IsCheaper (taking c headers file) c headers file reservation pool e (omega arith)

    pub fetched_phase-IsCheaper :
        (c : ℕ) (result : Result (Option UpstreamError) (UpstreamResourceHeaders × List ℕ))
        → s.tasks i ≡ at_phase job (fetching c)
        → IsCheaper s i (at_phase job (fetched_phase c result), s.storage)
    unfolding fetched_phase
    fetched_phase-IsCheaper c (err error) e =
        lower_rank (fetching c) (responding c (err error)) [] s.storage e (omega arith) refl
    fetched_phase-IsCheaper c (ok (headers, file)) e =
        lower_rank (fetching c) (reserving false c headers file) [] s.storage e (omega arith) refl

  pub drops-IsCheaper :
      (s : System lru) (i c : ℕ) (rest : List ℕ)
      → (s.tasks i).drops ≡ c ∷ rest
      → IsCheaper s i (record (s.tasks i) { drops = rest }, s.storage)
        × IsCheaper s i (
            dropped lru (record (s.tasks i) { drops = rest }) s.storage (drop_cell lru c s.storage))
  unfolding dropped
  drops-IsCheaper s i c rest e =
      let more : length (s.tasks i).drops ≡ length rest + 1 = ap length e ∙ omega arith in
      let one : IsCheaper s i (record (s.tasks i) { drops = rest }, s.storage) =
        (omega (arith, more), omega (arith, more)) in
      (
        one,
        elim (drop_cell-cases lru c s.storage) [
          | inl (st, ran, _, cache, _) ↦
              let same : count st ≡ count s.storage =
                ap (λ (x : lru.State). length (lru.entries x)) cache in
              rw (ran, dropped) (omega (arith, more), omega (arith, more, same))
          | inr panics ↦ rw (panics, dropped) (omega (arith, more), omega (arith, more))
        ],
      )

  -- A step that goes on leaves its task less to do.
  Step-IsCheaper :
      {s s' : System lru} (st : Step lru s s')
      → goes_on lru st ≡ true
      → (i : ℕ) × (x : Task × CacheStorage lru) × (s' ≡ update lru s i x) × IsCheaper s i x
  unfolding goes_on
  Step-IsCheaper (begin i job old e is) works = absurd (cc (works))
  Step-IsCheaper {s} (claims i job e free is) works = (i, _, is, claim-IsCheaper s i job e)
  Step-IsCheaper {s} (unlocks i job c e is) works =
      (i, _, is, lower_rank s i job (claimed c) (waiting c) [] s.storage e (omega arith) refl)
  Step-IsCheaper {s} (finds i job c r e full is) works = (
    i,
    _,
    is,
    lower_rank s i job (waiting c) (responding c (ok r)) [] s.storage e (omega arith) refl,
  )
  Step-IsCheaper {s} (inits i job c e empty free is) works =
      (i, _, is, lower_rank s i job (waiting c) (fetching c) [] s.storage e (omega arith) refl)
  Step-IsCheaper {s} (fetches i job c e is) works =
      (i, _, is, fetched_phase-IsCheaper s i job c _ e)
  Step-IsCheaper {s} (reserves i job locked c headers file e is) works =
      (i, _, is, try_reserve-IsCheaper s i job locked c headers file e)
  Step-IsCheaper {s} (evicts i job c headers file e free is) works = (
    i,
    _,
    is,
    pop-IsCheaper s i job (wants_eviction c headers file) c headers file e (omega arith),
  )
  Step-IsCheaper {s} (takes i job c headers file e is) works =
      (i, _, is, take_all-IsCheaper s i job c headers file e)
  Step-IsCheaper {s} (responds i job c result e is) works = (
    i,
    _,
    is,
    lower_rank s i job (responding c result) idle (c ∷ []) (counted lru job result s.storage) e
        (omega arith) (counted-count job result s.storage),
  )
  Step-IsCheaper (cancels_lock i job e is) works = absurd (cc (works))
  Step-IsCheaper (cancels i job c phase e which is) works = absurd (cc (works))
  Step-IsCheaper {s} (drops_one i c rest drops is referenced) works =
      (i, _, is, (drops-IsCheaper s i c rest drops).0)
  Step-IsCheaper {s} (drops_last i c rest drops gone is) works =
      (i, _, is, (drops-IsCheaper s i c rest drops).1)

  IsCheaper-work_left :
      (n : ℕ) (s : System lru) (i : ℕ) (x : Task × CacheStorage lru)
      → IsCheaper s i x
      → ((j : ℕ) → n ≤ j → IsQuiet (s.tasks j))
      → (work_left n (update lru s i x) < work_left n s)
        × ((j : ℕ) → n ≤ j → IsQuiet ((update lru s i x).tasks j))
  IsCheaper-work_left n s i (t, st) (busy, less) quiet = elim (dec_le n i) [
    | yes out ↦
        let (is_idle, nil) = quiet i out in
        absurd (omega (arith, busy, ap rank is_idle, ap length nil))
    | no below ↦ (
      omega (arith, less, sum_changed n s.tasks i t (omega (arith, below))),
      λ j le.
          subst IsQuiet
            (sym (set_task_other s.tasks i t j (λ e. absurd (omega (arith, le, below, e)))))
            (quiet j le),
    )
  ]

  -- A step that goes on takes work.
  pub Step-work_left :
      (n : ℕ) {s s' : System lru} (st : Step lru s s')
      → goes_on lru st ≡ true
      → ((j : ℕ) → n ≤ j → IsQuiet (s.tasks j))
      → (work_left n s' < work_left n s) × ((j : ℕ) → n ≤ j → IsQuiet (s'.tasks j))
  Step-work_left n {s} {s'} st works quiet =
      let (i, x, is, cheaper) = Step-IsCheaper st works in
      subst
        (λ (y : System lru).
          (work_left n y < work_left n s) × ((j : ℕ) → n ≤ j → IsQuiet (y.tasks j)))
        (sym is) (IsCheaper-work_left n s i x cheaper quiet)
