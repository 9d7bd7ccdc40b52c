-- ===== src/Tasks/Carried.antt =====
-- src/cache.rs, `Cache::get` for many requests: whose files there are after a step of each kind.
use server.Cache.Evict.{count_eviction-same}
use server.Cache.Fill.{fetched}
use server.Cache.Totals.{get_last?-cases, Lacks-of_le}
use server.Cache.{
  CacheStorage, CachedResource, CachedResourceKey, CachedResourceKey-discrete, count_eviction, emit,
  set_cell,
}
use server.Lru.{LruCache}
use server.Pool.{CacheCapacityPool, CacheCapacityReservation}
use server.Prelude.{
  ℕ, ◌+◌, ◌≤◌, ◌≡◌, ◌⊎◌, refl, sym, ap, ◌∙◌, subst, inl, inr, arith, ℕ_discrete, Option, none, some,
  List, [], ◌∷◌, ◌++◌, true, ok, String, if_pos, if_neg,
}
use server.Tasks.Claims.{claim-cases}
use server.Tasks.Inserted.{inserted}
use server.Tasks.Defs.{
  Job, Phase, System, idle, wants_lock, claimed, reserving, taking, responding, cell_of,
}
use server.Tasks.Honest.{
  is_active, Distinct-key, file_of, Honest, Sourced, In-touched, In-slot, In-overwritten,
  In-drop_last, IsLess, Sourced-less, Sourced-goes, IsLess-same,
}
use server.Tasks.Invariant.{In, Fine, Sound, set_task-all, entries}
use server.Tasks.Members.{In-left}
use server.Tasks.Steps.{at_phase, update, claim, pop, store, new_resource}
use server.Upstream.{UpstreamResourceHeaders}

-- The job's upstream gave the headers and the file for the job's path.
abbrev pub Gave : String → Job → UpstreamResourceHeaders → List ℕ → Type 0
Gave dir job headers file =
    fetched job.outside dir (job.outside.upstream job.key.path) ≡ ok (headers, file)

module _ (lru : LruCache CachedResourceKey ℕ CachedResourceKey-discrete) where
  count_eviction-dir :
      (o : Option CachedResource) (st : CacheStorage lru)
      → (count_eviction lru o st).cache_dir ≡ st.cache_dir
  unfolding count_eviction
  count_eviction-dir none st = refl
  count_eviction-dir (some r) st = refl

  module _ (Asked : Job → Type 0)
      (Good : CachedResourceKey → UpstreamResourceHeaders → List ℕ → Type 0) (dir : String)
      (gives : (job : Job) (headers : UpstreamResourceHeaders) (file : List ℕ)
        → Asked job
        → Gave dir job headers file
        → Good job.key headers file)
      {capacity : ℕ} (s : System lru) (h : Sound lru capacity s) (hs : Sourced Asked Good lru dir s)
      (i : ℕ) (job : Job) where
    abbrev Less : CacheStorage lru → Type 0
    Less st = IsLess Asked Good lru dir s hs i st

    abbrev Holding : System lru → Type 0
    Holding x = Sourced Asked Good lru dir x

    pub goes :
        (old phase : Phase) (drops : List ℕ) (st : CacheStorage lru)
        → s.tasks i ≡ at_phase job old
        → is_active old ≡ true
        → Less st
        → ((c : ℕ) → cell_of phase ≡ some c → cell_of old ≡ some c)
        → ((headers : UpstreamResourceHeaders) (file : List ℕ)
            → file_of phase ≡ some (headers, file)
            → (file_of old ≡ some (headers, file)) ⊎ Good job.key headers file)
        → Holding (update lru s i (record { job = job; phase = phase; drops = drops }, st))
    goes old phase drops st e busy less cell file =
        Sourced-goes Asked Good lru dir s hs i job old phase drops st e busy less
          (λ c q. inl (cell c q)) file

    blank_from : (c : ℕ) → s.storage.next_cell ≤ c → s.storage.cells c ≡ none
    blank_from c le = h.books.stray c (
        Lacks-of_le c s.storage.next_cell (entries lru s.storage ++ h.orphans) h.books.allocated le)

    pub begin-Sourced :
        (old : Job)
        → s.tasks i ≡ at_phase old idle
        → Asked job
        → Holding (update lru s i (at_phase job wants_lock, s.storage))
    begin-Sourced old e asked =
        Sourced-less Asked Good lru dir s hs i (at_phase job wants_lock) s.storage
          (IsLess-same Asked Good lru dir s hs i)
          (record {
            asked = λ p. asked;
            shown = λ c r p full. absurd (cc);
            carried = λ headers file p. absurd (cc);
          })

    pub claim-Sourced :
        s.tasks i ≡ at_phase job wants_lock → Holding (update lru s i (claim lru job s.storage))
    claim-Sourced e =
        let n = s.storage.next_cell in
        let es = entries lru s.storage in
        let dec = CachedResourceKey-discrete in
        let c0 = lru.cap s.storage.cached_resources in
        let laws = lru.get_or_insert_lem job.key n s.storage.cached_resources in
        let st = inserted lru job.key s.storage in
        let v = (lru.get_or_insert_mut_ref job.key n s.storage.cached_resources).0 in
        let old : (x : CachedResourceKey × ℕ)
            → In x (entries lru st)
            → In x es ⊎ (s.storage.cells x.1 ≡ none) =
          λ x m. elim (In-touched dec job.key n c0 x es (subst (In x) laws.2 m)) [
            | inl was ↦ inl was
            | inr new ↦ inr (blank_from x.1 (omega (arith, new)))
          ] in
        elim (claim-cases lru job s.storage _ _ refl refl) [
          | inl fresh ↦
              subst (λ x. Holding (update lru s i x)) (sym fresh)
                (Sourced-goes Asked Good lru dir s hs i job wants_lock (claimed v) _ st e refl
                  (refl, (λ c r full. full), old)
                  (λ c q.
                    let is : v ≡ c = cc (q) in
                    inr (elim (In-slot dec job.key n es) [
                      | inl m ↦ inl (subst (λ (m : ℕ). In (job.key, m) es) (sym laws.0 ∙ is) m)
                      | inr new ↦ inr (blank_from c (omega (arith, laws.0, new, is)))
                    ]))
                  (λ headers file q. absurd (cc (q))))
          | inr stale ↦
              let assigned = lru.assign_lem job.key (n + 1) st.cached_resources in
              subst (λ x. Holding (update lru s i x)) (sym stale)
                (Sourced-goes Asked Good lru dir s hs i job wants_lock (claimed (n + 1)) _ _ e refl
                  (
                    refl,
                    (λ c r full. full),
                    λ x m.
                        elim (In-overwritten dec job.key (n + 1) x (entries lru st)
                          (subst (In x) assigned.0 m)) [
                            | inl was ↦ old x was
                            | inr new ↦ inr (blank_from x.1 (omega (arith, new)))
                          ],
                  )
                  (λ c q.
                    let is : n + 1 ≡ c = cc (q) in inr (inr (blank_from c (omega (arith, is)))))
                  (λ headers file q. absurd (cc (q))))
        ]

    pub store-Sourced :
        (old : Phase) (c : ℕ) (headers : UpstreamResourceHeaders) (file : List ℕ)
        (reservation : CacheCapacityReservation) (pool : CacheCapacityPool)
        → s.tasks i ≡ at_phase job old
        → is_active old ≡ true
        → cell_of old ≡ some c
        → file_of old ≡ some (headers, file)
        → Holding (
            update lru s i (
              store lru job c headers file reservation (record s.storage { capacity_pool = pool })))
    unfolding store emit
    store-Sourced old c headers file reservation pool e busy its has =
        let r = new_resource job headers file reservation in
        let es = entries lru s.storage in
        let own = subst (Honest Asked Good s.storage.cells) e (hs.honest i) in
        let good : Good job.key headers file = own.carried headers file has in
        let here : In (job.key, c) (es ++ h.orphans) =
          (subst (Fine (es ++ h.orphans) s.storage.cells) e (h.fine i)).known c its in
        let its_own : (k : CachedResourceKey) (x : CachedResource)
            → In (k, c) (es ++ h.orphans)
            → some r ≡ some x
            → Good k x.headers x.file =
          λ k x m q.
            let is : r ≡ x = cc q in
            subst (λ (y : CachedResource). Good k y.headers y.file) is
              (subst (λ k. Good k headers file)
                (Distinct-key job.key k c (es ++ h.orphans) h.books.distinct here m) good) in
        let filled : (k : CachedResourceKey) (d : ℕ) (x : CachedResource)
            → In (k, d) (es ++ h.orphans)
            → set_cell s.storage.cells c (some r) d ≡ some x
            → (s.storage.cells d ≡ some x → Good k x.headers x.file)
            → Good k x.headers x.file =
          λ k d x m full was. elim (ℕ_discrete c d) [
            | yes p ↦
                its_own k x (subst (λ n. In (k, n) (es ++ h.orphans)) (sym p) m)
                  (sym (if_pos (ℕ_discrete c d) p _ _) ∙ full)
            | no p ↦ was (sym (if_neg (ℕ_discrete c d) p _ _) ∙ full)
          ] in
        record {
          same_dir = hs.same_dir;
          stocked =
              λ x y m full. filled x.0 x.1 y (In-left x es h.orphans m) full (hs.stocked x y m);
          honest =
              set_task-all s.tasks i (at_phase job (responding c (ok r)))
                (Honest Asked Good (set_cell s.storage.cells c (some r)))
                (record {
                  asked = λ p. own.asked busy;
                  shown = λ d x q full.
                      filled job.key d x
                        (subst (λ n. In (job.key, n) (es ++ h.orphans)) (cc q) here) full
                        (own.shown d x (its ∙ q));
                  carried = λ headers file q. absurd (cc (q));
                })
                (λ j p. record {
                  asked = (hs.honest j).asked;
                  shown = λ d x q full.
                      filled (s.tasks j).job.key d x ((h.fine j).known d q) full
                        ((hs.honest j).shown d x q);
                  carried = (hs.honest j).carried;
                });
        }

    pub pop-Sourced :
        (old : Phase) (c : ℕ) (headers : UpstreamResourceHeaders) (file : List ℕ)
        → s.tasks i ≡ at_phase job old
        → is_active old ≡ true
        → cell_of old ≡ some c
        → file_of old ≡ some (headers, file)
        → Holding (update lru s i (pop lru job c headers file s.storage))
    unfolding pop
    pop-Sourced old c headers file e busy its has =
        let es = entries lru s.storage in
        let laws = lru.pop_lru_lem s.storage.cached_resources in
        let st = record s.storage {
          cached_resources = (lru.pop_lru s.storage.cached_resources).1;
        } in
        elim (get_last?-cases es) [
          | inl (nil, last) ↦
              rw (laws.0 ∙ last, pop)
                (goes old (taking c headers file) [] st e busy
                  (
                    refl,
                    (λ d r full. full),
                    λ x m.
                        inl (In-drop_last CachedResourceKey-discrete x es (subst (In x) laws.1 m)),
                  )
                  (λ d q. its ∙ q) (λ hd f q. inl (has ∙ q)))
          | inr (f, last, _) ↦
              let (cells, cache, _, _) = count_eviction-same lru (s.storage.cells f.1) st in
              rw (laws.0 ∙ last, pop)
                (goes old (reserving true c headers file) (f.1 ∷ [])
                  (count_eviction lru (s.storage.cells f.1) st) e busy
                  (
                    count_eviction-dir (s.storage.cells f.1) st,
                    (λ d r full. sym (ap (λ (y : ℕ → Option CachedResource). y d) cells) ∙ full),
                    λ x m. inl (
                        In-drop_last CachedResourceKey-discrete x es
                          (subst (In x) (ap lru.entries cache ∙ laws.1) m)),
                  )
                  (λ d q. its ∙ q) (λ hd f q. inl (has ∙ q)))
        ]
