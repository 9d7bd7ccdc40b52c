-- ===== src/Tasks/Drops.antt =====
-- A task lets go of an `Arc`.
use server.Cache.Invariant.{Books, drop_cell_lem, drop_empty}
use server.Cache.Totals.{Lacks, Distinct-middle, Lacks-append, holds_cell_cases}
use server.Cache.{CachedResource, CachedResourceKey, CachedResourceKey-discrete, drop_cell}
use server.Lru.{LruCache}
use server.Pool.{u64_mod}
use server.Prelude.{
  ℕ, ◌≤◌, ◌<◌, ◌≡◌, ◌≢◌, ◌⊎◌, sym, ap, ◌∙◌, subst, inl, inr, Option, none, some, List, ◌∷◌, ◌++◌,
  append_assoc, length, ℕ_discrete,
}
use server.Tasks.Defs.{
  Phase, Task, System, idle, wants_lock, claimed, waiting, fetching, reserving, wants_eviction,
  taking, responding, panicked, permit, cell_of, Among, Holds, set_task,
}
use server.Tasks.Invariant.{In, Fine, Sound, Sound-update, set_task_self, set_task_other, entries}
use server.Tasks.Members.{In-middle, In-middle_back, In-Lacks, Lacks-of_lost, not_both}
use server.Tasks.Steps.{Referenced, dropped, update}

permit-cell : (phase : Phase) (c : ℕ) → permit phase ≡ some c → cell_of phase ≡ some c
permit-cell (fetching d) c p = p
permit-cell (reserving locked d headers file) c p = p
permit-cell (wants_eviction d headers file) c p = p
permit-cell (taking d headers file) c p = p
permit-cell idle c p = absurd (cc)
permit-cell wants_lock c p = absurd (cc)
permit-cell (claimed d) c p = absurd (cc)
permit-cell (waiting d) c p = absurd (cc)
permit-cell (responding d r) c p = absurd (cc)
permit-cell panicked c p = absurd (cc)

-- A task that does not have a cell does not mind that it goes.
Fine-dropped :
    (e : CachedResourceKey × ℕ) (xs ys : List (CachedResourceKey × ℕ))
    (cells cells' : ℕ → Option CachedResource) (t : Task)
    → ¬ Holds t e.1
    → ((d : ℕ) → d ≢ e.1 → cells' d ≡ cells d)
    → Fine (xs ++ e ∷ ys) cells t
    → Fine (xs ++ ys) cells' t
Fine-dropped e xs ys cells cells' t free same f = record {
  known = λ c p. elim (In-middle (t.job.key, c) e xs ys (f.known c p)) [
    | inl is ↦ absurd (free (inl (p ∙ ap some (sym (ap (λ (y : CachedResourceKey × ℕ). y.1) is)))))
    | inr m ↦ m
  ];
  blank = λ c p. same c (λ q. free (inl (permit-cell t.phase c p ∙ ap some q))) ∙ f.blank c p;
  filled = λ c r p. same c (λ q. free (inl (ap cell_of p ∙ ap some q))) ∙ f.filled c r p;
  calm = f.calm;
}

module _ (lru : LruCache CachedResourceKey ℕ CachedResourceKey-discrete) {capacity : ℕ}
    (s : System lru) (h : Sound lru capacity s) (i c : ℕ) (rest : List ℕ)
    (drops : (s.tasks i).drops ≡ c ∷ rest) where
  abbrev live : List (CachedResourceKey × ℕ)
  live = entries lru s.storage ++ h.orphans

  abbrev t : Task
  t = record (s.tasks i) { drops = rest }

  -- Who has a cell still has it, or the cell is the one that goes.
  still_held :
      (d : ℕ)
      → (j : ℕ) × Holds (s.tasks j) d
      → ((j : ℕ) × Holds (set_task s.tasks i t j) d) ⊎ (c ≡ d)
  still_held d (j, held) = elim (ℕ_discrete i j) [
    | no p ↦ inl (j, subst (λ (x : Task). Holds x d) (sym (set_task_other s.tasks i t j p)) held)
    | yes p ↦ elim (subst (λ k. Holds (s.tasks k) d) (sym p) held) [
      | inl cell ↦
          inl (i, subst (λ (x : Task). Holds x d) (sym (set_task_self s.tasks i t)) (inl cell))
      | inr m ↦ elim (subst (Among d) drops m) [
        | inl is ↦ inr is
        | inr later ↦
            inl (i, subst (λ (x : Task). Holds x d) (sym (set_task_self s.tasks i t)) (inr later))
      ]
    ]
  ]

  -- The task is as fine as before.
  Fine-rest :
      {live' : List (CachedResourceKey × ℕ)} {cells : ℕ → Option CachedResource}
      → Fine live' cells (s.tasks i)
      → Fine live' cells t
  Fine-rest f = record { known = f.known; blank = f.blank; filled = f.filled; calm = f.calm }

  pub drops_one-Sound :
      Referenced lru (update lru s i (t, s.storage)) c
      → Sound lru capacity (update lru s i (t, s.storage))
  drops_one-Sound referenced =
      Sound-update lru s h i t s.storage h.orphans h.books h.roomy h.bounded
        (λ e m. elim (still_held e.1 (h.owned e m)) [
          | inl held ↦ held
          | inr is ↦ elim referenced [
            | inr (j, held) ↦ (j, subst (Holds (set_task s.tasks i t j)) is held)
            | inl cached ↦
                absurd (
                  not_both c (entries lru s.storage) h.orphans e h.books.distinct cached m (sym is))
          ]
        ])
        (λ j p f. f) (Fine-rest (h.fine i)) (λ a p. inl p) (λ d p. inl p)

  module _ (gone : ¬ Referenced lru (update lru s i (t, s.storage)) c) where
    unheld : (j : ℕ) → i ≢ j → ¬ Holds (s.tasks j) c
    unheld j p held =
        gone (inr (j, subst (λ (x : Task). Holds x c) (sym (set_task_other s.tasks i t j p)) held))

    unheld_self : ¬ Holds t c
    unheld_self held =
        gone (inr (i, subst (λ (x : Task). Holds x c) (sym (set_task_self s.tasks i t)) held))

    uncached : Lacks c (entries lru s.storage)
    uncached = Lacks-of_lost c (entries lru s.storage) (λ held. gone (inl held))

    -- No entry and no orphan has the cell: it is empty.
    drops_stray :
        Lacks c h.orphans
        → Sound lru capacity (update lru s i (dropped lru t s.storage (drop_cell lru c s.storage)))
    unfolding dropped
    drops_stray lacks =
        let empty =
          h.books.stray c
            ((Lacks-append c (entries lru s.storage) h.orphans).1 (uncached, lacks)) in
        rw (drop_empty lru c s.storage empty) (
          Sound-update lru s h i t s.storage h.orphans h.books h.roomy h.bounded
            (λ e m. elim (still_held e.1 (h.owned e m)) [
              | inl held ↦ held
              | inr is ↦ absurd (In-Lacks e h.orphans m (subst (λ n. Lacks n h.orphans) is lacks))
            ])
            (λ j p f. f) (Fine-rest (h.fine i)) (λ a p. inl p) (λ d p. inl p))

    -- The cell is one that the cache had let go of.
    drops_orphan :
        (e : CachedResourceKey × ℕ) (xs ys : List (CachedResourceKey × ℕ))
        → h.orphans ≡ xs ++ e ∷ ys
        → e.1 ≡ c
        → capacity < u64_mod
        → Sound lru capacity (update lru s i (dropped lru t s.storage (drop_cell lru c s.storage)))
    unfolding dropped
    drops_orphan e xs ys same here bounded =
        let es = entries lru s.storage in
        let split : es ++ h.orphans ≡ (es ++ xs) ++ e ∷ ys =
          ap (λ l. es ++ l) same ∙ sym (append_assoc es xs (e ∷ ys)) in
        let books = subst (λ l. Books lru capacity none l s.storage) split h.books in
        let (s', ran, d, books') =
          drop_cell_lem lru bounded e.0 e.1 (es ++ xs) ys s.storage books in
        let joined : (es ++ xs) ++ ys ≡ entries lru s' ++ (xs ++ ys) =
          append_assoc es xs ys
          ∙ ap (λ (l : lru.State). lru.entries l ++ (xs ++ ys)) (sym d.same_cache) in
        let keep : (x : Task)
            → ¬ Holds x c
            → Fine (es ++ h.orphans) s.storage.cells x
            → Fine (entries lru s' ++ (xs ++ ys)) s'.cells x =
          λ x free f.
            subst (λ l. Fine l s'.cells x) joined
              (Fine-dropped e (es ++ xs) ys s.storage.cells s'.cells x
                (λ held. free (subst (Holds x) here held)) d.others
                (subst (λ l. Fine l s.storage.cells x) split f)) in
        let lacks =
          (Lacks-append e.1 xs ys).0
            ((Lacks-append e.1 es (xs ++ ys)).0 (
              subst (Lacks e.1) (append_assoc es xs ys)
                (Distinct-middle e (es ++ xs) ys books.distinct).1)).1 in
        rw (ap (λ n. drop_cell lru n s.storage) (sym here) ∙ ran) (
          Sound-update lru s h i t s' (xs ++ ys)
            (subst (λ l. Books lru capacity none l s') joined books')
            (subst (λ (l : lru.State). 0 < lru.cap l) (sym d.same_cache) h.roomy)
            (subst (λ (l : lru.State). length (lru.entries l) ≤ lru.cap l) (sym d.same_cache)
              h.bounded)
            (λ f m.
              elim (still_held f.1
                (h.owned f (subst (In f) (sym same) (In-middle_back f e xs ys (inr m))))) [
                  | inl held ↦ held
                  | inr is ↦ absurd (
                      In-Lacks f (xs ++ ys) m (
                        subst (λ n. Lacks n (xs ++ ys)) (here ∙ is)
                          ((Lacks-append e.1 xs ys).1 lacks)))
                ])
            (λ j p f. keep (s.tasks j) (unheld j p) f) (keep t unheld_self (Fine-rest (h.fine i)))
            (λ a p. inl p) (λ n p. inl p))

    pub drops_last-Sound :
        capacity < u64_mod
        → Sound lru capacity (update lru s i (dropped lru t s.storage (drop_cell lru c s.storage)))
    drops_last-Sound bounded = elim (holds_cell_cases c h.orphans) [
      | inl (lacks, _) ↦ drops_stray lacks
      | inr (e, xs, ys, same, here, _) ↦ drops_orphan e xs ys same here bounded
    ]
