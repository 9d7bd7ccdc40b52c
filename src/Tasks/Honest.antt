-- ===== src/Tasks/Honest.antt =====
-- src/cache.rs, `Cache::get` for many requests: whose files the cells and the tasks have.
use mathlib.Core.List.{lookup}
use server.Cache.Totals.{lookup_split, Lacks, Distinct}
use server.Cache.{CacheStorage, CachedResource, CachedResourceKey, CachedResourceKey-discrete}
use server.Lru.Entries.{slot-present, touched-present, slot-absent, touched-absent}
use server.Tasks.Members.{In-left, In-Lacks, In-middle_back}
use server.Lru.{LruCache, remove, slot, touched, overwritten, drop_last}
use server.Prelude.{
  ℕ, ◌≡◌, ◌⊎◌, refl, sym, ap, ◌∙◌, subst, inl, inr, Option, none, some, List, [], ◌∷◌, take, drop,
  take-append-drop, ◌-◌, Bool, true, false, Option-cases, String, if_pos, if_neg,
}
use server.Tasks.Defs.{
  Job, Phase, Task, System, idle, reserving, wants_eviction, taking, panicked, cell_of,
}
use server.Tasks.Invariant.{In, set_task-all, entries}
use server.Tasks.Steps.{at_phase, update}
use server.Upstream.{UpstreamResourceHeaders}

module _ {K : Type 0} (dec : Discrete K) where
  In-remove : (k : K) (e : K × ℕ) (es : List (K × ℕ)) → In e (remove dec k es) → In e es
  unfolding remove
  In-remove k e [] m = m
  In-remove k e (f ∷ es) m = elim (dec f.0 k) [
    | yes p ↦ inr (subst (In e) (if_pos (dec f.0 k) p _ _) m)
    | no p ↦ elim (subst (In e) (if_neg (dec f.0 k) p _ _) m) [
      | inl is ↦ inl is
      | inr later ↦ inr (In-remove k e es later)
    ]
  ]

  In-lookup : (k : K) (v : ℕ) (es : List (K × ℕ)) → lookup dec k es ≡ some v → In (k, v) es
  In-lookup k v es e =
      let (xs, ys, same, _) = lookup_split dec k es v e in
      subst (In (k, v)) (sym same) (In-middle_back (k, v) (k, v) xs ys (inl refl))

  In-take : (n : ℕ) (e : K × ℕ) (es : List (K × ℕ)) → In e (take n es) → In e es
  In-take n e es m = subst (In e) (take-append-drop n es) (In-left e (take n es) (drop n es) m)

  -- The cells that a look-up with an insertion leaves: old ones, or the new one.
  pub In-touched :
      (k : K) (v cap : ℕ) (e : K × ℕ) (es : List (K × ℕ))
      → In e (touched dec k v cap es)
      → In e es ⊎ (e.1 ≡ v)
  In-touched k v cap e es m = elim (Option-cases (lookup dec k es)) [
    | inl absent ↦ elim (subst (In e) (touched-absent dec k v es absent cap) m) [
      | inl is ↦ inr (ap (λ (y : K × ℕ). y.1) (sym is))
      | inr later ↦ inl (In-take (cap - 1) e es later)
    ]
    | inr (w, present) ↦ elim (subst (In e) (touched-present dec k v es w present cap) m) [
      | inl is ↦ inl (subst (λ x. In x es) is (In-lookup k w es present))
      | inr later ↦ inl (In-remove k e es later)
    ]
  ]

  pub In-slot :
      (k : K) (v : ℕ) (es : List (K × ℕ)) → In (k, slot dec k v es) es ⊎ (slot dec k v es ≡ v)
  In-slot k v es = elim (Option-cases (lookup dec k es)) [
    | inl absent ↦ inr (slot-absent dec k v es absent)
    | inr (w, present) ↦ inl (
        subst (λ n. In (k, n) es) (sym (slot-present dec k v es w present))
          (In-lookup k w es present))
  ]

  pub In-overwritten :
      (k : K) (v : ℕ) (e : K × ℕ) (es : List (K × ℕ))
      → In e (overwritten dec k v es)
      → In e es ⊎ (e.1 ≡ v)
  unfolding overwritten
  In-overwritten k v e [] m = absurd m
  In-overwritten k v e (f ∷ es) m = elim (dec f.0 k) [
    | yes p ↦ elim (subst (In e) (if_pos (dec f.0 k) p _ _) m) [
      | inl is ↦ inr (ap (λ (y : K × ℕ). y.1) (sym is))
      | inr later ↦ inl (inr later)
    ]
    | no p ↦ elim (subst (In e) (if_neg (dec f.0 k) p _ _) m) [
      | inl is ↦ inl (inl is)
      | inr later ↦ elim (In-overwritten k v e es later) [
        | inl was ↦ inl (inr was)
        | inr new ↦ inr new
      ]
    ]
  ]

  pub In-drop_last : (e : K × ℕ) (es : List (K × ℕ)) → In e (drop_last es) → In e es
  unfolding drop_last
  In-drop_last e [] m = m
  In-drop_last e (f ∷ []) m = absurd m
  In-drop_last e (f ∷ g ∷ es) (inl is) = inl is
  In-drop_last e (f ∷ g ∷ es) (inr m) = inr (In-drop_last e (g ∷ es) m)

-- Of cells that no two entries share, each has one key.
pub Distinct-key :
    {K : Type 0} (k j : K) (c : ℕ) (es : List (K × ℕ))
    → Distinct es
    → In (k, c) es
    → In (j, c) es
    → k ≡ j
Distinct-key k j c [] d m n = absurd m
Distinct-key k j c (e ∷ es) d (inl p) (inl q) = ap (λ (x : _ × ℕ). x.0) (sym p ∙ q)
Distinct-key k j c (e ∷ es) d (inl p) (inr n) =
    absurd (In-Lacks (j, c) es n (subst (λ (m : ℕ). Lacks m es) (ap (λ (x : _ × ℕ). x.1) p) d.0))
Distinct-key k j c (e ∷ es) d (inr m) (inl q) =
    absurd (In-Lacks (k, c) es m (subst (λ (n : ℕ). Lacks n es) (ap (λ (x : _ × ℕ). x.1) q) d.0))
Distinct-key k j c (e ∷ es) d (inr m) (inr n) = Distinct-key k j c es d.1 m n

-- The task works on its job.
abbrev pub is_active : Phase → Bool
is_active idle = false
is_active panicked = false
is_active _ = true

-- The file that a task has written, and that no cell has yet.
abbrev pub file_of : Phase → Option (UpstreamResourceHeaders × List ℕ)
file_of (reserving _ _ headers file) = some (headers, file)
file_of (wants_eviction _ headers file) = some (headers, file)
file_of (taking _ headers file) = some (headers, file)
file_of _ = none

module _ (Asked : Job → Type 0)
    (Good : CachedResourceKey → UpstreamResourceHeaders → List ℕ → Type 0) where
  pub record Honest (cells : ℕ → Option CachedResource) (t : Task) : Type 0 where
    pub asked : is_active t.phase ≡ true → Asked t.job
    pub shown :
        (c : ℕ) (r : CachedResource)
        → cell_of t.phase ≡ some c
        → cells c ≡ some r
        → Good t.job.key r.headers r.file
    pub carried :
        (headers : UpstreamResourceHeaders) (file : List ℕ)
        → file_of t.phase ≡ some (headers, file)
        → Good t.job.key headers file

  module _ (lru : LruCache CachedResourceKey ℕ CachedResourceKey-discrete) (dir : String) where
    pub record Sourced (s : System lru) : Type 0 where
      pub same_dir : s.storage.cache_dir ≡ dir
      pub stocked :
          (e : CachedResourceKey × ℕ) (r : CachedResource)
          → In e (entries lru s.storage)
          → s.storage.cells e.1 ≡ some r
          → Good e.0 r.headers r.file
      pub honest : (i : ℕ) → Honest s.storage.cells (s.tasks i)

    module _ (s : System lru) (hs : Sourced s) (i : ℕ) where
      -- Cells that lost files at most, and entries that are old or blank.
      abbrev pub IsLess : CacheStorage lru → Type 0
      IsLess st =
          (st.cache_dir ≡ s.storage.cache_dir)
          × ((c : ℕ) (r : CachedResource) → st.cells c ≡ some r → s.storage.cells c ≡ some r)
          × ((e : CachedResourceKey × ℕ)
              → In e (entries lru st)
              → In e (entries lru s.storage) ⊎ (st.cells e.1 ≡ none))

      pub Sourced-less :
          (t : Task) (st : CacheStorage lru)
          → IsLess st
          → Honest st.cells t
          → Sourced (update lru s i (t, st))
      Sourced-less t st (dir_same, lost, old) own = record {
        same_dir = dir_same ∙ hs.same_dir;
        stocked = λ e r m full. elim (old e m) [
          | inl was ↦ hs.stocked e r was (lost e.1 r full)
          | inr blank ↦ absurd (cc (blank, full))
        ];
        honest = set_task-all s.tasks i t (Honest st.cells) own λ j p. record {
          asked = (hs.honest j).asked;
          shown = λ c r q full. (hs.honest j).shown c r q (lost c r full);
          carried = (hs.honest j).carried;
        };
      }

      -- A task goes on with its job.
      pub Sourced-goes :
          (job : Job) (old phase : Phase) (drops : List ℕ) (st : CacheStorage lru)
          → s.tasks i ≡ at_phase job old
          → is_active old ≡ true
          → IsLess st
          → ((c : ℕ)
              → cell_of phase ≡ some c
              → (cell_of old ≡ some c)
                ⊎ In (job.key, c) (entries lru s.storage)
                ⊎ (st.cells c ≡ none))
          → ((headers : UpstreamResourceHeaders) (file : List ℕ)
              → file_of phase ≡ some (headers, file)
              → (file_of old ≡ some (headers, file)) ⊎ Good job.key headers file)
          → Sourced (update lru s i (record { job = job; phase = phase; drops = drops }, st))
      Sourced-goes job old phase drops st e busy less cell file =
          let h : Honest s.storage.cells (at_phase job old) =
            subst (Honest s.storage.cells) e (hs.honest i) in
          Sourced-less (record { job = job; phase = phase; drops = drops }) st less
            (record {
              asked = λ p. h.asked busy;
              shown = λ c r q full. elim (cell c q) [
                | inl was ↦ h.shown c r was (less.1 c r full)
                | inr rest ↦ elim rest [
                  | inl m ↦ hs.stocked (job.key, c) r m (less.1 c r full)
                  | inr blank ↦ absurd (cc (blank, full))
                ]
              ];
              carried = λ headers f q. elim (file headers f q) [
                | inl was ↦ h.carried headers f was
                | inr good ↦ good
              ];
            })

      pub IsLess-same : IsLess s.storage
      IsLess-same = (refl, (λ c r full. full), λ e m. inl m)
