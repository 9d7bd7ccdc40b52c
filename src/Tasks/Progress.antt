-- ===== src/Tasks/Progress.antt =====
-- src/cache.rs, `Cache::get` for many requests: deadlocks on the lock of the cache and on the
-- cells.
use server.Cache.{
  CacheStorage, CachedResourceKey, CachedResourceKey-discrete, holds_cell, drop_cell,
}
use server.Cache.Claim.{IsValid}
use server.Lru.{LruCache}
use server.Pool.{u64_mod}
use server.Prelude.{
  ℕ, ◌<◌, ◌≡◌, ◌≢◌, ◌⊎◌, refl, sym, ap, subst, inl, inr, some, List, [], Bool, true, false,
  Bool-cases, Option-cases,
}
use server.Tasks.Defs.{
  Job, Phase, Task, System, idle, wants_lock, claimed, waiting, fetching, reserving, wants_eviction,
  taking, responding, panicked, has_lock, permit, Holds,
}
use server.Tasks.Safety.{Reach-Sound, start-Sound}
use server.Tasks.Steps.{
  Step, begin, claims, unlocks, finds, inits, fetches, reserves, evicts, takes, responds,
  cancels_lock, cancels, drops_one, drops_last, Reach, LockFree, here, next, AllIdle, at_phase,
  update, dropped,
}
use server.Tasks.Search.{
  IsFinite, find_task, is_some, is_held, quiet-Holds, HasDrops, has_drops, has_it, idle_or_busy,
  is_busy, updated-IsFinite, no_drops_of,
}

module _ (lru : LruCache CachedResourceKey ℕ CachedResourceKey-discrete) where
  -- The step is not the start of a request, nor does it cancel one.
  unfoldable pub goes_on : {s s' : System lru} → Step lru s s' → Bool
  goes_on (begin _ _ _ _ _) = false
  goes_on (cancels_lock _ _ _ _) = false
  goes_on (cancels _ _ _ _ _ _ _) = false
  goes_on _ = true

  abbrev pub GoesOn : System lru → Type 0
  GoesOn s = (s' : System lru) × (st : Step lru s s') × (goes_on st ≡ true)

  as_phase : (t : Task) → t.drops ≡ [] → t ≡ at_phase t.job t.phase
  as_phase t e = ap (λ (ds : List ℕ). record t { drops = ds }) e

  module _ (s : System lru) (finite : IsFinite s.tasks) where
    lets_go : (i : ℕ) → HasDrops (s.tasks i) → GoesOn s
    unfolding goes_on
    lets_go i (c, rest, e) =
        let t = record (s.tasks i) { drops = rest } in
        let s1 = update lru s i (t, s.storage) in
        elim (Bool-cases (holds_cell (lru.entries s.storage.cached_resources) c)) [
          | inl held ↦ (s1, drops_one i c rest e refl (inl held), refl)
          | inr gone ↦
              elim (find_task s1.tasks (updated-IsFinite s.tasks i t finite) (λ t. Holds t c)
                (is_held c) (quiet-Holds c)) [
                  | inl holder ↦ (s1, drops_one i c rest e refl (inr holder), refl)
                  | inr nobody ↦ (
                    update lru s i (dropped lru t s.storage (drop_cell lru c s.storage)),
                    drops_last i c rest e
                        (λ r. elim r [ inl held ↦ cc (gone, held) | inr (j, h) ↦ nobody j h ]) refl,
                    refl,
                  )
                ]
        ]

    module _ (no_drops : (i : ℕ) → (s.tasks i).drops ≡ []) where
      -- Who has the lock goes on.
      holder_goes :
          (i : ℕ) (job : Job) (phase : Phase)
          → s.tasks i ≡ at_phase job phase
          → has_lock phase ≡ some tt
          → GoesOn s
      unfolding goes_on
      holder_goes i job (claimed c) e p = (_, unlocks i job c e refl, refl)
      holder_goes i job (reserving locked c headers file) e p =
          (_, reserves i job locked c headers file e refl, refl)
      holder_goes i job (taking c headers file) e p = (_, takes i job c headers file e refl, refl)
      holder_goes i job _ e p = absurd (cc (p))

      -- Without the lock held, who has the permit of a cell goes on.
      permit_goes :
          LockFree lru s
          → (c i : ℕ) (job : Job) (phase : Phase) → s.tasks i ≡ at_phase job phase
          → permit phase ≡ some c
          → GoesOn s
      unfolding goes_on
      permit_goes free c i job (fetching d) e p = (_, fetches i job d e refl, refl)
      permit_goes free c i job (reserving locked d headers file) e p =
          (_, reserves i job locked d headers file e refl, refl)
      permit_goes free c i job (wants_eviction d headers file) e p =
          (_, evicts i job d headers file e free refl, refl)
      permit_goes free c i job (taking d headers file) e p =
          (_, takes i job d headers file e refl, refl)
      permit_goes free c i job _ e p = absurd (cc (p))

      waiter_goes :
          LockFree lru s
          → (i : ℕ) (job : Job) (c : ℕ) → s.tasks i ≡ at_phase job (waiting c)
          → GoesOn s
      unfolding goes_on
      waiter_goes free i job c e = elim (Option-cases (s.storage.cells c)) [
        | inr (r, full) ↦ (_, finds i job c r e full refl, refl)
        | inl empty ↦
            elim (find_task s.tasks finite (λ t. permit t.phase ≡ some c)
              (λ t. is_some (permit t.phase) c) (λ t quiet p. cc (ap permit quiet.0, p))) [
                | inl (j, p) ↦
                    permit_goes free c j (s.tasks j).job (s.tasks j).phase
                      (as_phase (s.tasks j) (no_drops j)) p
                | inr nobody ↦ (_, inits i job c e empty nobody refl, refl)
              ]
      ]

      busy_goes :
          LockFree lru s
          → (i : ℕ) (job : Job) (phase : Phase) → s.tasks i ≡ at_phase job phase
          → phase ≢ idle
          → phase ≢ panicked
          → GoesOn s
      unfolding goes_on
      busy_goes free i job idle e p q = absurd (p refl)
      busy_goes free i job wants_lock e p q = (_, claims i job e free refl, refl)
      busy_goes free i job (claimed c) e p q = (_, unlocks i job c e refl, refl)
      busy_goes free i job (waiting c) e p q = waiter_goes free i job c e
      busy_goes free i job (fetching d) e p q = (_, fetches i job d e refl, refl)
      busy_goes free i job (reserving locked d headers file) e p q =
          (_, reserves i job locked d headers file e refl, refl)
      busy_goes free i job (wants_eviction d headers file) e p q =
          (_, evicts i job d headers file e free refl, refl)
      busy_goes free i job (taking d headers file) e p q =
          (_, takes i job d headers file e refl, refl)
      busy_goes free i job (responding c result) e p q = (_, responds i job c result e refl, refl)
      busy_goes free i job panicked e p q = absurd (q refl)

      stuck_is_quiet : ((i : ℕ) → (s.tasks i).phase ≢ panicked) → GoesOn s ⊎ AllIdle lru s
      stuck_is_quiet calm =
          elim (find_task s.tasks finite (λ t. has_lock t.phase ≡ some tt) (λ t. has_it t.phase)
            (λ t quiet p. cc (ap has_lock quiet.0, p))) [
              | inl (i, p) ↦ inl (
                  holder_goes i (s.tasks i).job (s.tasks i).phase
                    (as_phase (s.tasks i) (no_drops i)) p)
              | inr nobody ↦
                  let free : LockFree lru s = λ j.
                    elim (Option-cases (has_lock (s.tasks j).phase)) [
                      | inl e ↦ e
                      | inr (a, e) ↦ absurd (nobody j e)
                    ] in
                  elim (find_task s.tasks finite (λ t. t.phase ≢ idle) is_busy
                    (λ t quiet p. p quiet.0)) [
                      | inl (i, p) ↦ inl (
                          busy_goes free i (s.tasks i).job (s.tasks i).phase
                            (as_phase (s.tasks i) (no_drops i)) p (calm i))
                      | inr all_idle ↦ inr λ i. elim (idle_or_busy (s.tasks i).phase) [
                        | inl e ↦ (e, no_drops i)
                        | inr p ↦ absurd (all_idle i p)
                      ]
                    ]
            ]

    goes_or_rests : ((i : ℕ) → (s.tasks i).phase ≢ panicked) → GoesOn s ⊎ AllIdle lru s
    goes_or_rests calm =
        elim (find_task s.tasks finite HasDrops has_drops
          (λ t quiet (c, rest, e). cc (quiet.1, e))) [
            | inl (i, drops) ↦ inl (lets_go i drops)
            | inr none_has ↦ stuck_is_quiet (λ i. no_drops_of (s.tasks i) (none_has i)) calm
          ]

  -- A step is the update of one task and of the storage.
  Step-moves :
      {s s' : System lru}
      → Step lru s s'
      → (i : ℕ) × (x : Task × CacheStorage lru) × (s' ≡ update lru s i x)
  Step-moves (begin i job old e is) = (i, _, is)
  Step-moves (claims i job e free is) = (i, _, is)
  Step-moves (unlocks i job c e is) = (i, _, is)
  Step-moves (finds i job c r e full is) = (i, _, is)
  Step-moves (inits i job c e empty free is) = (i, _, is)
  Step-moves (fetches i job c e is) = (i, _, is)
  Step-moves (reserves i job locked c headers file e is) = (i, _, is)
  Step-moves (evicts i job c headers file e free is) = (i, _, is)
  Step-moves (takes i job c headers file e is) = (i, _, is)
  Step-moves (responds i job c result e is) = (i, _, is)
  Step-moves (cancels_lock i job e is) = (i, _, is)
  Step-moves (cancels i job c phase e which is) = (i, _, is)
  Step-moves (drops_one i c rest drops is referenced) = (i, _, is)
  Step-moves (drops_last i c rest drops gone is) = (i, _, is)

  Step-IsFinite : {s s' : System lru} → Step lru s s' → IsFinite s.tasks → IsFinite s'.tasks
  Step-IsFinite {s} st finite =
      let (i, (t, storage), is) = Step-moves st in
      subst (λ (x : System lru). IsFinite x.tasks) (sym is) (updated-IsFinite s.tasks i t finite)

  pub Reach-IsFinite : {s s' : System lru} → Reach lru s s' → IsFinite s.tasks → IsFinite s'.tasks
  Reach-IsFinite here finite = finite
  Reach-IsFinite (next r st) finite = Step-IsFinite st (Reach-IsFinite r finite)

  -- From a valid storage, a capacity below 2^64 and tasks at rest, whatever happened so far: all
  -- tasks are at rest, or one of them can go on with its request, so that the tasks are in no
  -- deadlock on the lock of the cache and on the cells.
  pub Reach-GoesOn :
      {capacity : ℕ} (s s' : System lru)
      → capacity < u64_mod
      → IsValid lru capacity s.storage
      → AllIdle lru s
      → Reach lru s s'
      → GoesOn s' ⊎ AllIdle lru s'
  Reach-GoesOn s s' bounded valid rest reach =
      goes_or_rests s' (Reach-IsFinite reach (0, λ j le. rest j))
        (λ i. ((Reach-Sound lru bounded (start-Sound lru s valid rest) reach).fine i).calm)
