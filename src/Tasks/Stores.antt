-- ===== src/Tasks/Stores.antt =====
-- A reservation: the loop's rounds, and the cell that is set.
use server.Cache.Evict.{count_eviction-Books, count_eviction-same}
use server.Cache.Fill
use server.Cache.Invariant.{Books}
use server.Cache.Settle.{Books-in}
use server.Cache.Space.{Books-pool, with_pool}
use server.Cache.Totals.{get_last?-cases}
use server.Cache.{
  CacheStorage, CachedResource, CachedResourceKey, CachedResourceKey-discrete, count_eviction, emit,
}
use server.Lru.{LruCache, drop_last, get_last?}
use server.Pool.Cases.{reserve-cases, reserve_up_to-conserves}
use server.Pool.{CacheCapacityReservation, reserve, reserve_up_to}
use server.Prelude.{
  if◌then◌else◌, ℕ, ◌+◌, ◌-◌, ◌≤◌, ◌≡◌, ◌≢◌, ◌⊎◌, refl, sym, ap, ◌∙◌, subst, inl, inr, none, some,
  List, [], ◌∷◌, ◌++◌, append_assoc, length, length-append, ok, ℕ_discrete, if_pos, if_neg, arith,
  Bool, true, false,
}
use server.Tasks.Defs.{
  Job, Phase, Task, System, reserving, wants_eviction, taking, responding, panicked, has_lock,
  permit, cell_of, Among, Holds,
}
use server.Tasks.Invariant.{In, Fine, Sound, Sound-update, set_task-Holds, set_task_self, entries}
use server.Tasks.Members.{In-split}
use server.Tasks.Quiet.{goes_on-Sound}
use server.Tasks.Steps.{at_phase, new_resource, pop, store, take_all, try_reserve, update}
use server.Upstream.{UpstreamResourceHeaders}

module _ (lru : LruCache CachedResourceKey ℕ CachedResourceKey-discrete) {capacity : ℕ}
    (s : System lru) (h : Sound lru capacity s) (i : ℕ) (job : Job) (old : Phase)
    (e : s.tasks i ≡ at_phase job old) (c : ℕ) (its : permit old ≡ some c)
    (cell : cell_of old ≡ some c) (headers : UpstreamResourceHeaders) (file : List ℕ) where
  abbrev live : List (CachedResourceKey × ℕ)
  live = entries lru s.storage ++ h.orphans

  fine : Fine live s.storage.cells (at_phase job old)
  fine = subst (Fine live s.storage.cells) e (h.fine i)

  permit_here : permit (s.tasks i).phase ≡ some c
  permit_here = ap (λ (x : Task). permit x.phase) e ∙ its

  store-Sound :
      (reservation : CacheCapacityReservation) (available left : ℕ)
      → left + s.storage.capacity_pool.available_capacity ≡ capacity + available
      → left + reservation.reserved ≡ capacity
      → Sound lru capacity (
          update lru s i (
            store lru job c headers file reservation
              (with_pool lru (record { available_capacity = available }) s.storage)))
  unfolding store emit
  store-Sound reservation available left pool taken =
      let r = new_resource job headers file reservation in
      let (xs, ys, same) = In-split (job.key, c) live (fine.known c cell) in
      let s1 = with_pool lru (record { available_capacity = available }) s.storage in
      let raised =
        Fill.Books-raised lru job.outside job.handles job.expires_after headers file capacity left
          reservation s1 live (Books-pool lru left available s.storage h.books pool) taken in
      let empty = fine.blank c its in
      let books =
        Books-in lru job.key c r live _ _ raised empty
          (record {
            same_cells = λ _. refl;
            same_cache = refl;
            same_next = refl;
            same_pool = refl;
            same_raised = λ _. refl;
            same_lowered = λ _. refl;
          })
          (job.key, c) xs ys same refl in
      Sound-update lru s h i (at_phase job (responding c (ok r))) _ h.orphans books h.roomy
        h.bounded
        (λ x m.
          set_task-Holds s.tasks i (at_phase job (responding c (ok r)))
            (λ d p. elim (subst (λ (y : Task). Holds y d) e p) [
              | inl q ↦ inl (sym cell ∙ q)
              | inr q ↦ absurd q
            ])
            x.1 (h.owned x m))
        (λ j p f. record {
          known = f.known;
          blank = λ d q. elim (ℕ_discrete c d) [
            | yes w ↦ absurd (p (h.single i j c permit_here (q ∙ ap some (sym w))))
            | no w ↦ if_neg (ℕ_discrete c d) w _ _ ∙ f.blank d q
          ];
          filled = λ d r' q. elim (ℕ_discrete c d) [
            | yes w ↦ absurd (cc (f.filled d r' q, ap s.storage.cells w, empty))
            | no w ↦ if_neg (ℕ_discrete c d) w _ _ ∙ f.filled d r' q
          ];
          calm = f.calm;
        })
        (record {
          known = λ d q. fine.known d (cell ∙ q);
          blank = λ d q. absurd (cc);
          filled = λ d r' q. if_pos (ℕ_discrete c d) (cc) _ _ ∙ cc;
          calm = λ q. cc;
        })
        (λ a q. absurd (cc)) (λ d q. absurd (cc))

  abbrev Locked : Type 0
  Locked =
      (a : Unit {0}) → (has_lock old ≡ some a) ⊎ ((j : ℕ) → has_lock (s.tasks j).phase ≢ some a)

  -- The closure goes on, on a storage whose entries and orphans are the old ones.
  kept-Sound :
      (phase : Phase) (drops : List ℕ) (st : CacheStorage lru)
      (orphans : List (CachedResourceKey × ℕ))
      → permit phase ≡ some c
      → cell_of phase ≡ some c
      → ((d : ℕ) (r : CachedResource) → phase ≢ responding d (ok r))
      → phase ≢ panicked
      → Books lru capacity none live st
      → entries lru st ++ orphans ≡ live
      → st.cells ≡ s.storage.cells
      → lru.cap st.cached_resources ≡ lru.cap s.storage.cached_resources
      → length (entries lru st) ≤ length (entries lru s.storage)
      → ((x : CachedResourceKey × ℕ) → In x orphans → In x h.orphans ⊎ Among x.1 drops)
      → Locked
      → Sound lru capacity (update lru s i (record { job = job; phase = phase; drops = drops }, st))
  kept-Sound phase drops st orphans its' cell' silent calm books same cells cap shorter owned lock =
      let t : Task = record { job = job; phase = phase; drops = drops } in
      let move : (x : Task)
          → Fine live s.storage.cells x
          → Fine (entries lru st ++ orphans) st.cells x =
        λ x f.
          subst (λ l. Fine l st.cells x) (sym same) (subst (λ g. Fine live g x) (sym cells) f) in
      Sound-update lru s h i t st orphans
        (subst (λ l. Books lru capacity none l st) (sym same) books) (omega (arith, cap, h.roomy))
        (omega (arith, cap, shorter, h.bounded))
        (λ x m. elim (owned x m) [
          | inl was ↦
              set_task-Holds s.tasks i t
                (λ d p. elim (subst (λ (y : Task). Holds y d) e p) [
                  | inl q ↦ inl (cell' ∙ sym cell ∙ q)
                  | inr q ↦ absurd q
                ])
                x.1 (h.owned x was)
          | inr new ↦
              (i, subst (λ (y : Task). Holds y x.1) (sym (set_task_self s.tasks i t)) (inr new))
        ])
        (λ j p f. move (s.tasks j) f)
        (move t (record {
          known = λ d q. fine.known d (cell ∙ sym cell' ∙ q);
          blank = λ d q. fine.blank d (its ∙ sym its' ∙ q);
          filled = λ d r q. absurd (silent d r q);
          calm = calm;
        }))
        (λ a q.
          subst
            (λ (y : Task).
              (has_lock y.phase ≡ some a) ⊎ ((j : ℕ) → has_lock (s.tasks j).phase ≢ some a))
            (sym e) (lock a))
        (λ d q. inl (permit_here ∙ sym its' ∙ q))

  abbrev popped_storage : CacheStorage lru
  popped_storage = record s.storage {
    cached_resources = (lru.pop_lru s.storage.cached_resources).1;
  }

  pop-none :
      get_last? (entries lru s.storage) ≡ none
      → pop lru job c headers file s.storage
        ≡ (at_phase job (taking c headers file), popped_storage)
  unfolding pop
  pop-none last = rw ((lru.pop_lru_lem s.storage.cached_resources).0 ∙ last, pop)

  pop-some :
      (f : CachedResourceKey × ℕ)
      → get_last? (entries lru s.storage) ≡ some f
      → pop lru job c headers file s.storage ≡ (
        record { job = job; phase = reserving true c headers file; drops = f.1 ∷ [] },
        count_eviction lru (s.storage.cells f.1) popped_storage,
      )
  unfolding pop
  pop-some f last = rw ((lru.pop_lru_lem s.storage.cached_resources).0 ∙ last, pop)

  -- The cell of the evicted entry is the task's to drop.
  pub pop-Sound :
      Locked → Sound lru capacity (update lru s i (pop lru job c headers file s.storage))
  unfolding drop_last count_eviction
  pop-Sound lock =
      let es = entries lru s.storage in
      let laws = lru.pop_lru_lem s.storage.cached_resources in
      elim (get_last?-cases es) [
        | inl (nil, last) ↦
            let same : entries lru popped_storage ≡ es = laws.1 ∙ ap drop_last nil ∙ sym nil in
            subst (λ x. Sound lru capacity (update lru s i x)) (sym (pop-none last))
              (kept-Sound (taking c headers file) [] popped_storage h.orphans refl refl
                (λ d r p. cc) (λ p. cc)
                (count_eviction-Books lru none s.storage popped_storage.cached_resources h.books)
                (ap (λ l. l ++ h.orphans) same) refl laws.2 (omega (arith, ap length same))
                (λ x m. inl m) lock)
        | inr (f, last, split) ↦
            let (cells, cache, _, _) =
              count_eviction-same lru (s.storage.cells f.1) popped_storage in
            let st = count_eviction lru (s.storage.cells f.1) popped_storage in
            let left : entries lru st ≡ drop_last es = ap lru.entries cache ∙ laws.1 in
            subst (λ x. Sound lru capacity (update lru s i x)) (sym (pop-some f last))
              (kept-Sound (reserving true c headers file) (f.1 ∷ []) st (f ∷ h.orphans) refl refl
                (λ d r p. cc) (λ p. cc)
                (count_eviction-Books lru (s.storage.cells f.1) s.storage
                  popped_storage.cached_resources h.books)
                (ap (λ l. l ++ f ∷ h.orphans) left
                  ∙ sym (append_assoc (drop_last es) (f ∷ []) h.orphans)
                  ∙ ap (λ l. l ++ h.orphans) (sym split))
                cells (ap lru.cap cache ∙ laws.2)
                (omega
                  (arith, ap length left, ap length split, length-append (drop_last es) (f ∷ [])))
                (λ x m. elim m [
                  | inl is ↦ inr (inl (ap (λ (y : CachedResourceKey × ℕ). y.1) is))
                  | inr was ↦ inl was
                ])
                lock)
      ]

  pub take_all-Sound :
      Sound lru capacity (update lru s i (take_all lru job c headers file s.storage))
  unfolding take_all
  take_all-Sound =
      let (reservation, pool) = reserve_up_to s.storage.capacity_pool (length file) in
      let conserves = reserve_up_to-conserves s.storage.capacity_pool (length file) in
      store-Sound reservation pool.available_capacity (capacity - reservation.reserved)
        (omega (arith, conserves, h.books.conserved)) (omega (arith, conserves, h.books.conserved))

  try_reserve-fits :
      (locked : Bool)
      → reserve s.storage.capacity_pool (length file) ≡ (
        some (record { reserved = length file }),
        record { available_capacity = s.storage.capacity_pool.available_capacity - length file },
      )
      → try_reserve lru job locked c headers file s.storage
        ≡ store lru job c headers file
            (record { reserved = length file })
            (with_pool lru
              (record {
                available_capacity = s.storage.capacity_pool.available_capacity - length file;
              })
              s.storage)
  unfolding try_reserve
  try_reserve-fits locked ran = rw (ran, try_reserve) (rw ran)

  try_reserve-short :
      (locked : Bool)
      → reserve s.storage.capacity_pool (length file) ≡ (none, s.storage.capacity_pool)
      → try_reserve lru job locked c headers file s.storage ≡ (
          if locked
          then pop lru job c headers file s.storage
          else (at_phase job (wants_eviction c headers file), s.storage))
  unfolding try_reserve
  try_reserve-short locked ran = rw (ran, try_reserve)

  -- No room: the task evicts under the lock that it has, or waits for it.
  short-Sound :
      (locked : Bool)
      → old ≡ reserving locked c headers file
      → Sound lru capacity (
          update lru s i (
            if locked
            then pop lru job c headers file s.storage
            else (at_phase job (wants_eviction c headers file), s.storage)))
  short-Sound true is = pop-Sound (λ a. inl (ap has_lock is ∙ refl))
  short-Sound false is =
      goes_on-Sound lru s h i job old (wants_eviction c headers file) c e its cell (inl refl) refl
        refl (λ d r p. cc) (λ p. cc)

  -- One round of the loop.
  pub try_reserve-Sound :
      (locked : Bool)
      → old ≡ reserving locked c headers file
      → Sound lru capacity (update lru s i (try_reserve lru job locked c headers file s.storage))
  try_reserve-Sound locked is = elim (reserve-cases s.storage.capacity_pool (length file)) [
    | inl (fits, ran) ↦
        subst (λ x. Sound lru capacity (update lru s i x)) (sym (try_reserve-fits locked ran))
          (store-Sound (record { reserved = length file })
            (s.storage.capacity_pool.available_capacity - length file) (capacity - length file)
            (omega (arith, fits, h.books.conserved)) (omega (arith, fits, h.books.conserved)))
    | inr (short, ran) ↦
        subst (λ x. Sound lru capacity (update lru s i x)) (sym (try_reserve-short locked ran))
          (short-Sound locked is)
  ]
