-- ===== src/Tasks/Search.antt =====
-- src/cache.rs, `Cache::get` for many requests: a look through the tasks, of which finitely many are
-- busy.
use server.Prelude.{
  zero, suc, ℕ, ◌+◌, ◌<◌, ◌≤◌, ◌≡◌, ◌≢◌, ◌⊎◌, refl, sym, ap, subst, inl, inr, max, arith,
  ℕ_discrete, dec_le, Option, none, some, List, [], ◌∷◌, Option-cases,
}
use server.Tasks.Defs.{
  Phase, Task, idle, wants_lock, claimed, waiting, fetching, reserving, wants_eviction, taking,
  responding, panicked, has_lock, cell_of, Among, Holds, set_task,
}
use server.Tasks.Invariant.{set_task_other}

abbrev pub IsQuiet : Task → Type 0
IsQuiet t = (t.phase ≡ idle) × (t.drops ≡ [])

-- All tasks from some number on are at rest.
abbrev pub IsFinite : (ℕ → Task) → Type 0
IsFinite tasks = (n : ℕ) × ((j : ℕ) → n ≤ j → IsQuiet (tasks j))

pub search_below :
    (P : ℕ → Type 0) → ((j : ℕ) → Dec (P j)) → (n : ℕ) → ((j : ℕ) × P j) ⊎ ((j : ℕ) → j < n → ¬ P j)
search_below P decide zero = inr λ j lt p. absurd (omega (arith, lt))
search_below P decide (suc n) = elim (decide n) [
  | yes p ↦ inl (n, p)
  | no here_not ↦ elim (search_below P decide n) [
    | inl found ↦ inl found
    | inr below ↦ inr λ j lt p. elim (ℕ_discrete j n) [
      | yes e ↦ here_not (subst P e p)
      | no ne ↦ below j (omega (arith, lt, ne)) p
    ]
  ]
]

pub find_task :
    (tasks : ℕ → Task)
    → IsFinite tasks
    → (P : Task → Type 0) → ((t : Task) → Dec (P t))
    → ((t : Task) → IsQuiet t → ¬ P t)
    → ((j : ℕ) × P (tasks j)) ⊎ ((j : ℕ) → ¬ P (tasks j))
find_task tasks (n, quiet) P decide none_quiet =
    elim (search_below (λ j. P (tasks j)) (λ j. decide (tasks j)) n) [
      | inl found ↦ inl found
      | inr below ↦ inr λ j p. elim (dec_le n j) [
        | yes le ↦ none_quiet (tasks j) (quiet j le) p
        | no gt ↦ below j (omega (arith, gt)) p
      ]
    ]

pub is_some : (o : Option ℕ) (c : ℕ) → Dec (o ≡ some c)
is_some none c = no λ e. cc (e)
is_some (some d) c = elim (ℕ_discrete d c) [ yes p ↦ yes (ap some p) | no p ↦ no λ e. p (cc (e)) ]

pub is_among : (c : ℕ) (ds : List ℕ) → Dec (Among c ds)
is_among c [] = no λ m. m
is_among c (d ∷ ds) = elim (ℕ_discrete d c) [
  | yes p ↦ yes (inl p)
  | no p ↦ elim (is_among c ds) [
    | yes m ↦ yes (inr m)
    | no m ↦ no λ either. elim either [ inl e ↦ p e | inr later ↦ m later ]
  ]
]

pub is_held : (c : ℕ) (t : Task) → Dec (Holds t c)
is_held c t = elim (is_some (cell_of t.phase) c) [
  | yes p ↦ yes (inl p)
  | no p ↦ elim (is_among c t.drops) [
    | yes m ↦ yes (inr m)
    | no m ↦ no λ either. elim either [ inl e ↦ p e | inr later ↦ m later ]
  ]
]

pub quiet-Holds : (c : ℕ) (t : Task) → IsQuiet t → ¬ Holds t c
quiet-Holds c t (is_idle, nil) (inl p) = cc (ap cell_of is_idle, p)
quiet-Holds c t (is_idle, nil) (inr m) = absurd (subst (Among c) nil m)

abbrev pub HasDrops : Task → Type 0
HasDrops t = (c : ℕ) × (rest : List ℕ) × (t.drops ≡ c ∷ rest)

pub has_drops : (t : Task) → Dec (HasDrops t)
has_drops t = by_drops t.drops refl
  where
    by_drops : (ds : List ℕ) → t.drops ≡ ds → Dec (HasDrops t)
    by_drops [] nil = no λ (c, rest, e). cc (nil, e)
    by_drops (c ∷ rest) e = yes (c, rest, e)

pub has_it : (phase : Phase) → Dec (has_lock phase ≡ some tt)
has_it phase = elim (Option-cases (has_lock phase)) [
  | inl nobody ↦ no λ e. cc (nobody, e)
  | inr (a, e) ↦ yes e
]

pub idle_or_busy : (phase : Phase) → (phase ≡ idle) ⊎ (phase ≢ idle)
idle_or_busy idle = inl refl
idle_or_busy wants_lock = inr λ e. cc (e)
idle_or_busy (claimed c) = inr λ e. cc (e)
idle_or_busy (waiting c) = inr λ e. cc (e)
idle_or_busy (fetching c) = inr λ e. cc (e)
idle_or_busy (reserving locked c headers file) = inr λ e. cc (e)
idle_or_busy (wants_eviction c headers file) = inr λ e. cc (e)
idle_or_busy (taking c headers file) = inr λ e. cc (e)
idle_or_busy (responding c result) = inr λ e. cc (e)
idle_or_busy panicked = inr λ e. cc (e)

pub is_busy : (t : Task) → Dec (t.phase ≢ idle)
is_busy t = elim (idle_or_busy t.phase) [ inl e ↦ no λ p. p e | inr p ↦ yes p ]

-- Still finitely many tasks are busy.
pub updated-IsFinite :
    (tasks : ℕ → Task) (i : ℕ) (t : Task) → IsFinite tasks → IsFinite (set_task tasks i t)
updated-IsFinite tasks i t (n, quiet) = (
  max n (i + 1),
  λ j le.
      subst IsQuiet (sym (set_task_other tasks i t j (λ e. absurd (omega (arith, le, e)))))
        (quiet j (omega (arith, le))),
)

pub no_drops_of : (t : Task) → ¬ HasDrops t → t.drops ≡ []
no_drops_of t none_has = by_drops t.drops refl
  where
    by_drops : (ds : List ℕ) → t.drops ≡ ds → t.drops ≡ []
    by_drops [] nil = nil
    by_drops (c ∷ rest) e = absurd (none_has (c, rest, e))
