-- ===== src/Tasks/Members.antt =====
-- Members of lists of entries, and the cells that they have.
use server.Cache.Totals.{Lacks, Distinct, Lacks-append, holds_cell_cases}
use server.Cache.{holds_cell}
use server.Prelude.{
  ℕ, ◌≡◌, ◌≢◌, ◌⊎◌, sym, ap, ◌∙◌, subst, inl, inr, List, [], ◌∷◌, ◌++◌, true, arith,
}
use mathlib.Core.List.{map}
use server.Tasks.Defs.{Among}
use server.Tasks.Invariant.{In}

module _ {A : Type 0} where
  pub In-left : (a : A) (xs ys : List A) → In a xs → In a (xs ++ ys)
  In-left a [] ys m = absurd m
  In-left a (x ∷ xs) ys (inl e) = inl e
  In-left a (x ∷ xs) ys (inr m) = inr (In-left a xs ys m)

  pub In-right : (a : A) (xs ys : List A) → In a ys → In a (xs ++ ys)
  In-right a [] ys m = m
  In-right a (x ∷ xs) ys m = inr (In-right a xs ys m)

  pub In-append : (a : A) (xs ys : List A) → In a (xs ++ ys) → In a xs ⊎ In a ys
  In-append a [] ys m = inr m
  In-append a (x ∷ xs) ys (inl e) = inl (inl e)
  In-append a (x ∷ xs) ys (inr m) = elim (In-append a xs ys m) [
    | inl l ↦ inl (inr l)
    | inr r ↦ inr r
  ]

  pub In-middle : (a e : A) (xs ys : List A) → In a (xs ++ e ∷ ys) → (e ≡ a) ⊎ In a (xs ++ ys)
  In-middle a e [] ys (inl p) = inl p
  In-middle a e [] ys (inr m) = inr m
  In-middle a e (x ∷ xs) ys (inl p) = inr (inl p)
  In-middle a e (x ∷ xs) ys (inr m) = elim (In-middle a e xs ys m) [
    | inl p ↦ inl p
    | inr r ↦ inr (inr r)
  ]

  pub In-middle_back : (a e : A) (xs ys : List A) → (e ≡ a) ⊎ In a (xs ++ ys) → In a (xs ++ e ∷ ys)
  In-middle_back a e [] ys m = m
  In-middle_back a e (x ∷ xs) ys (inl p) = inr (In-middle_back a e xs ys (inl p))
  In-middle_back a e (x ∷ xs) ys (inr (inl p)) = inl p
  In-middle_back a e (x ∷ xs) ys (inr (inr m)) = inr (In-middle_back a e xs ys (inr m))

  pub In-split : (a : A) (l : List A) → In a l → (xs : List A) × (ys : List A) × (l ≡ xs ++ a ∷ ys)
  In-split a [] m = absurd m
  In-split a (x ∷ l) (inl e) = ([], l, ap (λ y. y ∷ l) e)
  In-split a (x ∷ l) (inr m) = let (xs, ys, same) = In-split a l m in (x ∷ xs, ys, ap (◌∷◌ x) same)

module _ {K : Type 0} where
  pub In-Lacks : (e : K × ℕ) (xs : List (K × ℕ)) → In e xs → ¬ Lacks e.1 xs
  In-Lacks e [] m l = absurd m
  In-Lacks e (x ∷ xs) (inl p) l = l.0 (ap (λ (y : K × ℕ). y.1) p)
  In-Lacks e (x ∷ xs) (inr m) l = In-Lacks e xs m l.1

  pub Lacks-of_lost : (c : ℕ) (xs : List (K × ℕ)) → holds_cell xs c ≢ true → Lacks c xs
  Lacks-of_lost c xs lost = elim (holds_cell_cases c xs) [
    | inl (lacks, _) ↦ lacks
    | inr (e, ys, zs, same, here, held) ↦ absurd (lost held)
  ]

  -- No cell of the first list is one of the second.
  pub not_both :
      (c : ℕ) (xs ys : List (K × ℕ)) (e : K × ℕ)
      → Distinct (xs ++ ys)
      → holds_cell xs c ≡ true
      → In e ys
      → e.1 ≢ c
  unfolding holds_cell
  not_both c [] ys e d held m p = cc
  not_both c (x ∷ xs) ys e d held m p = elim (holds_cell_cases c xs) [
    | inr (f, zs, ws, same, here, held') ↦ not_both c xs ys e d.1 held' m p
    | inl (lacks, lost) ↦
        let here : x.1 ≡ c = ground (arith, held, lost) in
        let l = ((Lacks-append x.1 xs ys).0 d.0).1 in
        In-Lacks e ys m (subst (λ n. Lacks n ys) (here ∙ sym p) l)
  ]

  pub holds_cell-Lacks : (c : ℕ) (xs : List (K × ℕ)) → Lacks c xs → holds_cell xs c ≢ true
  unfolding holds_cell
  holds_cell-Lacks c [] lacks held = cc
  holds_cell-Lacks c (x ∷ xs) lacks held =
      let rest = holds_cell-Lacks c xs lacks.1 in ground (arith, held, lacks.0, rest)

  pub Among-Lacks :
      (c : ℕ) (xs : List (K × ℕ)) → Lacks c xs → ¬ Among c (map (λ (x : K × ℕ). x.1) xs)
  Among-Lacks c [] lacks m = absurd m
  Among-Lacks c (x ∷ xs) lacks (inl p) = lacks.0 p
  Among-Lacks c (x ∷ xs) lacks (inr m) = Among-Lacks c xs lacks.1 m
