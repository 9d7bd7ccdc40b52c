-- ===== src/Tasks/Costs.antt =====
-- src/cache.rs, `Cache::get` for many requests: the work that a task has left, and the lengths of
-- lists of entries.
use mathlib.Core.List.{lookup, map}
use server.Cache.Totals.{lookup_split}
use server.Lru.Entries.{pushed_out-present, pushed_out-absent, touched-absent, touched-present}
use server.Lru.{touched, pushed_out, overwritten}
use server.Prelude.{
  zero, suc, ℕ, ◌+◌, ◌-◌, ◌<◌, ◌≤◌, ◌≡◌, refl, ap, ◌∙◌, inl, inr, arith, ℕ_discrete, List, [], ◌∷◌,
  take, drop, length, length-append, take-append-drop, true, false, Option-cases, if_pos, if_neg,
}
use server.Tasks.Defs.{
  Phase, Task, idle, wants_lock, claimed, waiting, fetching, reserving, wants_eviction, taking,
  responding, panicked, set_task,
}
use server.Tasks.Invariant.{set_task_other}

-- How far a request is from its end. An eviction costs two, which the entry that goes pays.
abbrev pub rank : Phase → ℕ
rank idle = 0
rank panicked = 0
rank (responding _ _) = 2
rank (taking _ _ _) = 3
rank (reserving true _ _ _) = 4
rank (wants_eviction _ _ _) = 5
rank (reserving false _ _ _) = 6
rank (fetching _) = 7
rank (waiting _) = 8
rank (claimed _) = 9
rank wants_lock = 13

abbrev pub cost : Task → ℕ
cost t = rank t.phase + length t.drops

abbrev pub sum_below : ℕ → (ℕ → ℕ) → ℕ
sum_below zero f = 0
sum_below (suc n) f = f n + sum_below n f

pub sum_same : (n : ℕ) (f g : ℕ → ℕ) → ((j : ℕ) → j < n → f j ≡ g j) → sum_below n f ≡ sum_below n g
sum_same zero f g same = refl
sum_same (suc n) f g same =
    omega (arith, same n (omega arith), sum_same n f g (λ j lt. same j (omega (arith, lt))))

-- One task below n changes.
pub sum_changed :
    (n : ℕ) (tasks : ℕ → Task) (i : ℕ) (t : Task)
    → i < n
    → sum_below n (λ j. cost (set_task tasks i t j)) + cost (tasks i)
      ≡ sum_below n (λ j. cost (tasks j)) + cost t
sum_changed zero tasks i t lt = absurd (omega (arith, lt))
sum_changed (suc n) tasks i t lt = elim (ℕ_discrete i n) [
  | yes p ↦
      let rest =
        sum_same n (λ j. cost (set_task tasks i t j)) (λ j. cost (tasks j))
          (λ j less.
            ap cost (set_task_other tasks i t j (λ q. absurd (omega (arith, less, p, q))))) in
      let own : cost (set_task tasks i t n) ≡ cost t = ap cost (if_pos (ℕ_discrete i n) p _ _) in
      let same : cost (tasks i) ≡ cost (tasks n) = ap (λ k. cost (tasks k)) p in
      omega (arith, rest, own, same)
  | no p ↦
      let other : cost (set_task tasks i t n) ≡ cost (tasks n) =
        ap cost (set_task_other tasks i t n p) in
      omega (arith, other, sum_changed n tasks i t (omega (arith, lt, p)))
]

module _ {K : Type 0} (dec : Discrete K) where
  pub length-overwritten :
      (k : K) (v : ℕ) (es : List (K × ℕ)) → length (overwritten dec k v es) ≡ length es
  unfolding overwritten
  length-overwritten k v [] = refl
  length-overwritten k v (e ∷ es) = elim (dec e.0 k) [
    | yes p ↦ ap length (if_pos (dec e.0 k) p _ _) ∙ refl
    | no p ↦ ap length (if_neg (dec e.0 k) p _ _) ∙ ap (λ n. suc n) (length-overwritten k v es)
  ]

  -- What goes in and what goes out.
  pub length-touched :
      (k : K) (v cap : ℕ) (es : List (K × ℕ))
      → length (touched dec k v cap es) + length (pushed_out dec k cap es) ≤ length es + 1
  length-touched k v cap es = elim (Option-cases (lookup dec k es)) [
    | inl absent ↦ omega (
      arith,
      ap length (touched-absent dec k v es absent cap),
      ap length (pushed_out-absent dec k v es absent cap),
      ap length (take-append-drop (cap - 1) es),
      length-append (take (cap - 1) es) (drop (cap - 1) es),
    )
    | inr (w, present) ↦
        let (xs, ys, same, removed) = lookup_split dec k es w present in
        omega (
          arith,
          ap length (touched-present dec k v es w present cap),
          ap length (pushed_out-present dec k v es w present cap),
          ap length removed,
          ap length same,
          length-append xs ((k, w) ∷ ys),
          length-append xs ys,
        )
  ]

pub length-cells :
    {K : Type 0} (es : List (K × ℕ)) → length (map (λ (x : K × ℕ). x.1) es) ≡ length es
length-cells [] = refl
length-cells (e ∷ es) = ap (λ n. suc n) (length-cells es)
