-- ===== src/Tasks/Invariant.antt =====
-- The invariant of the tasks: the books of the storage balance over the entries of the cache and
-- the cells that only tasks hold, no lock and no permit is held twice, and each task's cell fits.
use server.Cache.Invariant.{Books}
use server.Cache.{CacheStorage, CachedResource, CachedResourceKey, CachedResourceKey-discrete}
use server.Lru.{LruCache}
use server.Prelude.{
  ℕ, ◌≤◌, ◌<◌, ◌≡◌, ◌≢◌, ◌⊎◌, refl, sym, ◌∙◌, subst, inl, inr, ℕ_discrete, if_pos, if_neg, Option,
  none, some, List, [], ◌∷◌, ◌++◌, length, ok,
}
use server.Tasks.Defs.{
  Phase, Task, System, responding, panicked, has_lock, permit, cell_of, Holds, set_task,
}
use server.Tasks.Steps.{PermitFree, update}

abbrev pub In : {A : Type 0} → A → List A → Type 0
In a [] = ⊥
In a (x ∷ xs) = (x ≡ a) ⊎ In a xs

-- At most one task claims a thing.
abbrev pub Unique : {A : Type 0} → (Phase → Option A) → (ℕ → Task) → Type 0
Unique f tasks = (i j : ℕ) (a : _) → f (tasks i).phase ≡ some a → f (tasks j).phase ≡ some a → i ≡ j

module _ (tasks : ℕ → Task) (i : ℕ) (t : Task) where
  pub set_task_self : set_task tasks i t i ≡ t
  set_task_self = if_pos (ℕ_discrete i i) refl _ _

  pub set_task_other : (j : ℕ) → i ≢ j → set_task tasks i t j ≡ tasks j
  set_task_other j p = if_neg (ℕ_discrete i j) p _ _

  -- What holds of the new task and of the others holds of all.
  pub set_task-all {ℓ} :
      (P : Task → Type ℓ)
      → P t
      → ((j : ℕ) → i ≢ j → P (tasks j))
      → (j : ℕ) → P (set_task tasks i t j)
  set_task-all P own others j = elim (ℕ_discrete i j) [
    | yes p ↦ subst P (sym (if_pos (ℕ_discrete i j) p _ _)) own
    | no p ↦ subst P (sym (set_task_other j p)) (others j p)
  ]

  -- A claim that is the task's old one, or that nobody has, stays unique.
  pub set_task-Unique :
      {A : Type 0} (f : Phase → Option A)
      → ((a : A)
          → f t.phase ≡ some a
          → (f (tasks i).phase ≡ some a) ⊎ ((j : ℕ) → f (tasks j).phase ≢ some a))
      → Unique f tasks
      → Unique f (set_task tasks i t)
  set_task-Unique f fresh unique j k a ej ek = elim (ℕ_discrete i j) [
    | yes p ↦ elim (ℕ_discrete i k) [
      | yes q ↦ sym p ∙ q
      | no q ↦
          let own = subst (λ (x : Task). f x.phase ≡ some a) (if_pos (ℕ_discrete i j) p _ _) ej in
          let other = subst (λ (x : Task). f x.phase ≡ some a) (set_task_other k q) ek in
          elim (fresh a own) [
            | inl old ↦ sym p ∙ unique i k a old other
            | inr free ↦ absurd (free k other)
          ]
    ]
    | no p ↦ elim (ℕ_discrete i k) [
      | yes q ↦
          let own = subst (λ (x : Task). f x.phase ≡ some a) (if_pos (ℕ_discrete i k) q _ _) ek in
          let other = subst (λ (x : Task). f x.phase ≡ some a) (set_task_other j p) ej in
          elim (fresh a own) [
            | inl old ↦ unique j i a other old ∙ q
            | inr free ↦ absurd (free j other)
          ]
      | no q ↦
          unique j k a (subst (λ (x : Task). f x.phase ≡ some a) (set_task_other j p) ej)
            (subst (λ (x : Task). f x.phase ≡ some a) (set_task_other k q) ek)
    ]
  ]

  -- A cell that some task has, some task still has.
  pub set_task-Holds :
      ((c : ℕ) → Holds (tasks i) c → Holds t c)
      → (c : ℕ) → (j : ℕ) × Holds (tasks j) c
      → (j : ℕ) × Holds (set_task tasks i t j) c
  set_task-Holds keeps c (j, h) = elim (ℕ_discrete i j) [
    | yes p ↦ (
      i,
      subst (λ (x : Task). Holds x c) (sym set_task_self)
          (keeps c (subst (λ (k : ℕ). Holds (tasks k) c) (sym p) h)),
    )
    | no p ↦ (j, subst (λ (x : Task). Holds x c) (sym (set_task_other j p)) h)
  ]

-- A task fits to the cells, and to the entries `live` that the cells belong to.
pub record Fine (live : List (CachedResourceKey × ℕ)) (cells : ℕ → Option CachedResource) (t : Task)
    : Type 0 where
  pub known : (c : ℕ) → cell_of t.phase ≡ some c → In (t.job.key, c) live
  pub blank : (c : ℕ) → permit t.phase ≡ some c → cells c ≡ none
  pub filled : (c : ℕ) (r : CachedResource) → t.phase ≡ responding c (ok r) → cells c ≡ some r
  pub calm : t.phase ≢ panicked

module _ (lru : LruCache CachedResourceKey ℕ CachedResourceKey-discrete) where
  abbrev pub entries : CacheStorage lru → List (CachedResourceKey × ℕ)
  entries s = lru.entries s.cached_resources

  -- `orphans`: the cells that the cache has let go of, and some task has not.
  pub record Sound (capacity : ℕ) (s : System lru) : Type 0 where
    pub orphans : List (CachedResourceKey × ℕ)
    pub books :
        Books lru capacity none (lru.entries s.storage.cached_resources ++ orphans) s.storage
    pub owned : (e : CachedResourceKey × ℕ) → In e orphans → (j : ℕ) × Holds (s.tasks j) e.1
    pub roomy : 0 < lru.cap s.storage.cached_resources
    pub bounded :
        length (lru.entries s.storage.cached_resources) ≤ lru.cap s.storage.cached_resources
    pub fine :
        (j : ℕ)
        → Fine (lru.entries s.storage.cached_resources ++ orphans) s.storage.cells (s.tasks j)
    pub exclusive : Unique has_lock s.tasks
    pub single : Unique permit s.tasks

  -- The invariant after a step of one task.
  pub Sound-update :
      {capacity : ℕ} (s : System lru) (h : Sound capacity s) (i : ℕ) (t : Task)
      (st : CacheStorage lru) (orphans : List (CachedResourceKey × ℕ))
      → Books lru capacity none (entries st ++ orphans) st
      → 0 < lru.cap st.cached_resources
      → length (entries st) ≤ lru.cap st.cached_resources
      → ((e : CachedResourceKey × ℕ) → In e orphans → (j : ℕ) × Holds (set_task s.tasks i t j) e.1)
      → ((j : ℕ)
          → i ≢ j
          → Fine (entries s.storage ++ h.orphans) s.storage.cells (s.tasks j)
          → Fine (entries st ++ orphans) st.cells (s.tasks j))
      → Fine (entries st ++ orphans) st.cells t
      → ((a : Unit {0})
          → has_lock t.phase ≡ some a
          → (has_lock (s.tasks i).phase ≡ some a) ⊎ ((j : ℕ) → has_lock (s.tasks j).phase ≢ some a))
      → ((c : ℕ)
          → permit t.phase ≡ some c
          → (permit (s.tasks i).phase ≡ some c) ⊎ PermitFree lru s c)
      → Sound capacity (update lru s i (t, st))
  Sound-update s h i t st orphans books roomy bounded owned others own lock init = record {
    orphans = orphans;
    books = books;
    owned = owned;
    roomy = roomy;
    bounded = bounded;
    fine =
        set_task-all s.tasks i t (Fine (entries st ++ orphans) st.cells) own
          (λ j p. others j p (h.fine j));
    exclusive = set_task-Unique s.tasks i t has_lock lock h.exclusive;
    single = set_task-Unique s.tasks i t permit init h.single;
  }
