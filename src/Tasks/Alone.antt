-- ===== src/Tasks/Alone.antt =====
-- src/cache.rs, `Cache::get` for many requests: one task moves, and all others are at rest.
use mathlib.Core.List.{map}
use server.Cache.Totals.{Lacks, Distinct, Distinct-middle, Lacks-append}
use server.Cache.{
  CacheStorage, CachedResourceKey, CachedResourceKey-discrete, drop_cell, drop_entries, holds_cell,
}
use server.Lru.{LruCache}
use server.Prelude.{
  ℕ, ◌≡◌, ◌≢◌, ◌⊎◌, refl, sym, ap, ◌∙◌, subst, inl, inr, ℕ_discrete, Option, none, some, List, [],
  ◌∷◌, ◌++◌, true, bind-done, done,
}
use server.Tasks.Losses.{drop_cell-kept}
use server.Tasks.Defs.{Job, Phase, Task, System, idle, cell_of, Holds, set_task}
use server.Tasks.Invariant.{In, set_task_self, set_task_other, entries}
use server.Tasks.Members.{In-Lacks, holds_cell-Lacks, Among-Lacks}
use server.Tasks.Safety.{not_held}
use server.Tasks.Steps.{Step, Reach, next, drops_one, drops_last, at_phase, dropped, Referenced}

module _ (lru : LruCache CachedResourceKey ℕ CachedResourceKey-discrete) (s : System lru)
    (i : ℕ) where
  abbrev pub Quiet : (ℕ → Task) → Type 0
  Quiet tasks = (j : ℕ) → i ≢ j → ((tasks j).phase ≡ idle) × ((tasks j).drops ≡ [])

  abbrev pub system : (ℕ → Task) → CacheStorage lru → System lru
  system tasks st = record { storage = st; tasks = tasks }

  -- The task can come to `t` with the storage `st`.
  abbrev pub At : Task → CacheStorage lru → Type 0
  At t st = (tasks : ℕ → Task) × Reach lru s (system tasks st) × (tasks i ≡ t) × Quiet tasks

  pub go :
      (t t' : Task) (st st' : CacheStorage lru)
      → ((tasks : ℕ → Task)
          → tasks i ≡ t
          → Quiet tasks
          → Step lru (system tasks st) (system (set_task tasks i t') st'))
      → At t st
      → At t' st'
  go t t' st st' step (tasks, reach, own, others) = (
    set_task tasks i t',
    next reach (step tasks own others),
    set_task_self tasks i t',
    λ j p.
        subst (λ (x : Task). (x.phase ≡ idle) × (x.drops ≡ []))
          (sym (set_task_other tasks i t' j p)) (others j p),
  )

  -- What neither the task's phase nor `idle` has, nobody has.
  pub nobody :
      {A : Type 0} (f : Phase → Option A) (phase : Phase) (tasks : ℕ → Task) (job : Job)
      → f idle ≡ none
      → f phase ≡ none
      → tasks i ≡ at_phase job phase
      → Quiet tasks
      → (j : ℕ) → f (tasks j).phase ≡ none
  nobody f phase tasks job rests has own others j = elim (ℕ_discrete i j) [
    | yes p ↦ subst (λ n. f (tasks n).phase ≡ none) p (ap (λ (x : Task). f x.phase) own ∙ has)
    | no p ↦ ap f (others j p).0 ∙ rests
  ]

  -- The task lets go of a cell that the cache and the task do not have.
  pub lets_go :
      (t : Task) (c : ℕ) (rest : List ℕ) (st st' : CacheStorage lru)
      → t.drops ≡ c ∷ rest
      → holds_cell (entries lru st) c ≢ true
      → ¬ Holds (record t { drops = rest }) c
      → drop_cell lru c st ≡ done st'
      → At t st
      → At (record t { drops = rest }) st'
  unfolding dropped
  lets_go t c rest st st' has lost free ran =
      let after : Task = record t { drops = rest } in
      go t after st st' (λ tasks own others.
        let same : (record (tasks i) { drops = rest }) ≡ after =
          ap (λ (y : Task). record y { drops = rest }) own in
        drops_last i c rest (ap (λ (y : Task). y.drops) own ∙ has)
          (subst (λ (y : Task). ¬ Referenced lru (system (set_task tasks i y) st) c) (sym same)
            (λ held. elim held [
              | inl cached ↦ lost cached
              | inr (j, h) ↦ elim (ℕ_discrete i j) [
                | yes p ↦ free (
                    subst (λ (y : Task). Holds y c) (set_task_self tasks i after)
                      (subst (λ n. Holds (set_task tasks i after n) c) (sym p) h))
                | no p ↦
                    not_held (tasks j) c (others j p).0 (others j p).1
                      (subst (λ (y : Task). Holds y c) (set_task_other tasks i after j p) h)
              ]
            ]))
          (ap (λ (y : Task). system (set_task tasks i y) st') (sym same) ∙ rw (ran, dropped) refl))

  -- The task lets go of a cell that the cache or the task still has.
  pub keeps :
      (t : Task) (c : ℕ) (rest : List ℕ) (st : CacheStorage lru)
      → t.drops ≡ c ∷ rest
      → (holds_cell (entries lru st) c ≡ true) ⊎ Holds (record t { drops = rest }) c
      → At t st
      → At (record t { drops = rest }) st
  keeps t c rest st has held =
      let after : Task = record t { drops = rest } in
      go t after st st (λ tasks own others.
        let same : (record (tasks i) { drops = rest }) ≡ after =
          ap (λ (y : Task). record y { drops = rest }) own in
        drops_one i c rest (ap (λ (y : Task). y.drops) own ∙ has)
          (ap (λ (y : Task). system (set_task tasks i y) st) (sym same))
          (elim held [
            | inl cached ↦ inl cached
            | inr h ↦ inr (i, subst (λ (y : Task). Holds y c) (sym (set_task_self tasks i after)) h)
          ]))

  -- The task lets go of entries that the cache has pushed out.
  pub drop_all :
      (gone : List (CachedResourceKey × ℕ)) (job : Job) (phase : Phase) (c : ℕ)
      (st st' : CacheStorage lru)
      → Distinct (entries lru st ++ gone)
      → cell_of phase ≡ some c
      → In (job.key, c) (entries lru st)
      → drop_entries lru gone st ≡ done st'
      → At
          (record {
            job = job;
            phase = phase;
            drops = map (λ (x : CachedResourceKey × ℕ). x.1) gone;
          })
          st
      → At (at_phase job phase) st'
  unfolding drop_entries
  drop_all [] job phase c st st' distinct its m ran at =
      let same : st ≡ st' = cc ran in subst (At (at_phase job phase)) same at
  drop_all (e ∷ gone) job phase c st st' distinct its m ran at =
      let es = entries lru st in
      let (left, lacks) = Distinct-middle e es gone distinct in
      let (away, later) = (Lacks-append e.1 es gone).0 lacks in
      let (st1, ran1, ran2) = bind-done (drop_cell lru e.1 st) (drop_entries lru gone) st' ran in
      let same : entries lru st1 ≡ es = ap lru.entries (drop_cell-kept lru e.1 st st1 ran1).0 in
      drop_all gone job phase c st1 st' (subst (λ l. Distinct (l ++ gone)) (sym same) left) its
        (subst (In (job.key, c)) (sym same) m) ran2
        (lets_go _ e.1 (map (λ (x : CachedResourceKey × ℕ). x.1) gone) st st1 refl
          (holds_cell-Lacks e.1 es away)
          (λ held. elim held [
            | inl p ↦
                let is : e.1 ≡ c = cc (p, its) in
                In-Lacks (job.key, c) es m (subst (λ d. Lacks d es) is away)
            | inr among ↦ Among-Lacks e.1 gone later among
          ])
          ran1 at)
