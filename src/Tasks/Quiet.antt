-- ===== src/Tasks/Quiet.antt =====
-- Steps that change nothing of the storage but counters.
use server.Cache.Counts.{emit-CountsOnly, emit_two, CountsOnly-if}
use server.Cache.Invariant.{Books}
use server.Cache.Settle.{CountsOnly, Books-counts}
use server.Cache.{CacheStorage, CachedResource, CachedResourceKey, CachedResourceKey-discrete}
use server.Lru.{LruCache}
use mathlib.Core.Path.{fun_ext}
use server.Prelude.{
  ℕ, ◌≤◌, ◌<◌, ◌≡◌, ◌≢◌, ◌⊎◌, refl, sym, ap, ◌∙◌, subst, inl, inr, Option, none, some, List, [],
  ◌∷◌, ◌++◌, length, ◌==◌, Result, ok, err, false,
}
use server.Tasks.Defs.{
  Job, Phase, Task, System, idle, wants_lock, claimed, waiting, fetching, reserving, responding,
  panicked, has_lock, permit, cell_of, Holds,
}
use server.Tasks.Invariant.{In, Fine, Sound, Sound-update, set_task-Holds, entries}
use server.Tasks.Steps.{PermitFree, at_phase, counted, fetched_phase, update}
use server.Upstream.{UpstreamError, UpstreamResourceHeaders}

-- A task that has no permit and does not respond.
pub Fine-plain :
    {live : List (CachedResourceKey × ℕ)} {cells : ℕ → Option CachedResource} (t : Task)
    → permit t.phase ≡ none
    → ((c : ℕ) (r : CachedResource) → t.phase ≢ responding c (ok r))
    → t.phase ≢ panicked
    → ((c : ℕ) → cell_of t.phase ≡ some c → In (t.job.key, c) live)
    → Fine live cells t
Fine-plain t none_held silent calm known = record {
  known = known;
  blank = λ c p. cc (none_held, p);
  filled = λ c r p. absurd (silent c r p);
  calm = calm;
}

module _ (lru : LruCache CachedResourceKey ℕ CachedResourceKey-discrete) {capacity : ℕ}
    (s : System lru) (h : Sound lru capacity s) (i : ℕ) where
  abbrev live : List (CachedResourceKey × ℕ)
  live = entries lru s.storage ++ h.orphans

  -- The task was `t0`, and is `t` now.
  pub Sound-quiet :
      (t0 t : Task) (st : CacheStorage lru)
      → s.tasks i ≡ t0
      → CountsOnly lru s.storage st
      → ((c : ℕ) → Holds t0 c → Holds t c)
      → (Fine live s.storage.cells t0 → Fine live s.storage.cells t)
      → ((a : Unit {0})
          → has_lock t.phase ≡ some a
          → (has_lock t0.phase ≡ some a) ⊎ ((j : ℕ) → has_lock (s.tasks j).phase ≢ some a))
      → ((c : ℕ) → permit t.phase ≡ some c → (permit t0.phase ≡ some c) ⊎ PermitFree lru s c)
      → Sound lru capacity (update lru s i (t, st))
  Sound-quiet t0 t st e counts keeps own lock init =
      let cells : st.cells ≡ s.storage.cells = fun_ext counts.same_cells in
      let same = counts.same_cache in
      let at : (live' : List (CachedResourceKey × ℕ)) × (live' ≡ live) = (live, refl) in
      let move : (x : Task)
          → Fine live s.storage.cells x
          → Fine (entries lru st ++ h.orphans) st.cells x =
        λ x f. record {
          known = λ c p.
              subst (λ (l : lru.State). In (x.job.key, c) (lru.entries l ++ h.orphans)) (sym same)
                (f.known c p);
          blank = λ c p. counts.same_cells c ∙ f.blank c p;
          filled = λ c r p. counts.same_cells c ∙ f.filled c r p;
          calm = f.calm;
        } in
      Sound-update lru s h i t st h.orphans
        (subst (λ (l : lru.State). Books lru capacity none (lru.entries l ++ h.orphans) st)
          (sym same) (Books-counts lru s.storage st h.books counts))
        (subst (λ (l : lru.State). 0 < lru.cap l) (sym same) h.roomy)
        (subst (λ (l : lru.State). length (lru.entries l) ≤ lru.cap l) (sym same) h.bounded)
        (λ x m.
          set_task-Holds s.tasks i t (λ c p. keeps c (subst (λ (y : Task). Holds y c) e p)) x.1
            (h.owned x m))
        (λ j p f. move (s.tasks j) f)
        (move t (own (subst (Fine live s.storage.cells) e (h.fine i))))
        (λ a p.
          subst
            (λ (y : Task).
              (has_lock y.phase ≡ some a) ⊎ ((j : ℕ) → has_lock (s.tasks j).phase ≢ some a))
            (sym e) (lock a p))
        (λ c p.
          subst (λ (y : Task). (permit y.phase ≡ some c) ⊎ PermitFree lru s c) (sym e) (init c p))

  -- The storage is as it was.
  pub same_storage : CountsOnly lru s.storage s.storage
  same_storage = record {
    same_cells = λ _. refl;
    same_cache = refl;
    same_next = refl;
    same_pool = refl;
    same_raised = λ _. refl;
    same_lowered = λ _. refl;
  }

  module _ (job : Job) where
    -- A task that goes on to a phase without lock and permit, with the same cell.
    on_to :
        (old phase : Phase) (st : CacheStorage lru)
        → s.tasks i ≡ at_phase job old
        → CountsOnly lru s.storage st
        → cell_of phase ≡ cell_of old
        → has_lock phase ≡ none
        → permit phase ≡ none
        → ((c : ℕ) (r : CachedResource) → phase ≢ responding c (ok r))
        → phase ≢ panicked
        → Sound lru capacity (update lru s i (at_phase job phase, st))
    on_to old phase st e counts same no_lock no_permit silent calm =
        Sound-quiet (at_phase job old) (at_phase job phase) st e counts
          (λ c p. elim p [ inl x ↦ inl (same ∙ x) | inr x ↦ inr x ])
          (λ f.
            Fine-plain (at_phase job phase) no_permit silent calm (λ c p. f.known c (sym same ∙ p)))
          (λ a p. absurd (cc (no_lock, p))) (λ c p. absurd (cc (no_permit, p)))

    pub begin-Sound :
        (old : Job)
        → s.tasks i ≡ at_phase old idle
        → Sound lru capacity (update lru s i (at_phase job wants_lock, s.storage))
    begin-Sound old e =
        Sound-quiet (at_phase old idle) (at_phase job wants_lock) s.storage e same_storage
          (λ c p. elim p [ inl x ↦ inl x | inr x ↦ inr x ])
          (λ f.
            Fine-plain (at_phase job wants_lock) refl (λ c r p. cc) (λ p. cc) (λ c p. absurd (cc)))
          (λ a p. absurd (cc)) (λ c p. absurd (cc))

    pub unlocks-Sound :
        (c : ℕ)
        → s.tasks i ≡ at_phase job (claimed c)
        → Sound lru capacity (update lru s i (at_phase job (waiting c), s.storage))
    unlocks-Sound c e =
        on_to (claimed c) (waiting c) s.storage e same_storage refl refl refl (λ d r p. cc)
          (λ p. cc)

    pub cancels_lock-Sound :
        s.tasks i ≡ at_phase job wants_lock
        → Sound lru capacity (update lru s i (at_phase job idle, s.storage))
    cancels_lock-Sound e =
        on_to wants_lock idle s.storage e same_storage refl refl refl (λ d r p. cc) (λ p. cc)

    -- The task lets go of its cell.
    pub leaves-Sound :
        (old : Phase) (c : ℕ) (st : CacheStorage lru)
        → s.tasks i ≡ at_phase job old
        → CountsOnly lru s.storage st
        → cell_of old ≡ some c
        → Sound lru capacity
            (update lru s i (record { job = job; phase = idle; drops = c ∷ [] }, st))
    leaves-Sound old c st e counts its =
        Sound-quiet (at_phase job old) (record { job = job; phase = idle; drops = c ∷ [] }) st e
          counts (λ d p. elim p [ inl x ↦ inr (inl (cc (its, x))) | inr x ↦ absurd x ])
          (λ f.
            Fine-plain (record { job = job; phase = idle; drops = c ∷ [] }) refl (λ d r p. cc)
              (λ p. cc) (λ d p. absurd (cc)))
          (λ a p. absurd (cc)) (λ d p. absurd (cc))

    pub finds-Sound :
        (c : ℕ) (r : CachedResource)
        → s.tasks i ≡ at_phase job (waiting c)
        → s.storage.cells c ≡ some r
        → Sound lru capacity (update lru s i (at_phase job (responding c (ok r)), s.storage))
    finds-Sound c r e full =
        Sound-quiet (at_phase job (waiting c)) (at_phase job (responding c (ok r))) s.storage e
          same_storage (λ d p. p)
          (λ f. record {
            known = f.known;
            blank = λ d p. absurd (cc);
            filled = λ d r' p. ap s.storage.cells (cc) ∙ full ∙ cc;
            calm = λ p. cc;
          })
          (λ a p. absurd (cc)) (λ d p. absurd (cc))

    pub inits-Sound :
        (c : ℕ)
        → s.tasks i ≡ at_phase job (waiting c)
        → s.storage.cells c ≡ none
        → PermitFree lru s c
        → Sound lru capacity (update lru s i (at_phase job (fetching c), s.storage))
    inits-Sound c e empty free =
        Sound-quiet (at_phase job (waiting c)) (at_phase job (fetching c)) s.storage e same_storage
          (λ d p. p)
          (λ f. record {
            known = f.known;
            blank = λ d p. ap s.storage.cells (cc) ∙ empty;
            filled = λ d r p. absurd (cc);
            calm = λ p. cc;
          })
          (λ a p. absurd (cc)) (λ d p. inr (subst (PermitFree lru s) (cc) free))

    -- The closure goes on with its permit, and without the lock.
    pub goes_on-Sound :
        (old phase : Phase) (c : ℕ)
        → s.tasks i ≡ at_phase job old
        → permit old ≡ some c
        → cell_of old ≡ some c
        → (permit phase ≡ some c) ⊎ (permit phase ≡ none)
        → cell_of phase ≡ some c
        → has_lock phase ≡ none
        → ((d : ℕ) (r : CachedResource) → phase ≢ responding d (ok r))
        → phase ≢ panicked
        → Sound lru capacity (update lru s i (at_phase job phase, s.storage))
    goes_on-Sound old phase c e its cell its' cell' no_lock silent calm =
        Sound-quiet (at_phase job old) (at_phase job phase) s.storage e same_storage
          (λ d p. elim p [ inl x ↦ inl (cell' ∙ sym cell ∙ x) | inr x ↦ inr x ])
          (λ f. record {
            known = λ d p. f.known d (cell ∙ sym cell' ∙ p);
            blank = λ d p. elim its' [
              | inl x ↦ f.blank d (its ∙ sym x ∙ p)
              | inr x ↦ absurd (cc (x, p))
            ];
            filled = λ d r p. absurd (silent d r p);
            calm = calm;
          })
          (λ a p. absurd (cc (no_lock, p)))
          (λ d p. elim its' [ inl x ↦ inl (its ∙ sym x ∙ p) | inr x ↦ absurd (cc (x, p)) ])

    pub fetches-Sound :
        (c : ℕ) (answer : Result (Option UpstreamError) (UpstreamResourceHeaders × List ℕ))
        → s.tasks i ≡ at_phase job (fetching c)
        → Sound lru capacity (update lru s i (at_phase job (fetched_phase c answer), s.storage))
    unfolding fetched_phase
    fetches-Sound c (err error) e =
        goes_on-Sound (fetching c) (responding c (err error)) c e refl refl (inr refl) refl refl
          (λ d r p. cc) (λ p. cc)
    fetches-Sound c (ok (headers, file)) e =
        goes_on-Sound (fetching c) (reserving false c headers file) c e refl refl (inl refl) refl
          refl (λ d r p. cc) (λ p. cc)

    pub counted-CountsOnly :
        (result : Result (Option UpstreamError) CachedResource) (st : CacheStorage lru)
        → CountsOnly lru st (counted lru job result st)
    unfolding counted
    counted-CountsOnly (err none) st = emit-CountsOnly lru job.route_metrics.not_found_count 1 st
    counted-CountsOnly (err (some error)) st =
        emit-CountsOnly lru job.route_metrics.error_count 1 st
    counted-CountsOnly (ok r) st =
        CountsOnly-if lru (r.id == job.outside.new_v4) st _ _
          (emit_two lru job.route_metrics.miss_bytes job.route_metrics.miss_count r.size 1 st)
          (emit_two lru job.route_metrics.hit_bytes job.route_metrics.hit_count r.size 1 st)
