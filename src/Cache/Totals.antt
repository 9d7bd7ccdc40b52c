-- ===== src/Cache/Totals.antt =====
-- Sums over the entries of a cache: what the resources in their cells weigh.
use mathlib.Core.List.{lookup}
use server.Cache.Get.{holds_cell}
use server.Lru.{remove, get_last?, drop_last}
use server.Prelude.{
  ℕ, ◌+◌, ◌≤◌, ◌<◌, ◌≡◌, ◌≢◌, ◌↔◌, refl, ap, sym, ◌⊎◌, inl, inr, true, false, Option, none, some,
  List, [], ◌∷◌, ◌++◌, arith, All, if_pos, if_neg, ℕ_discrete,
}

-- No entry has the cell.
abbrev pub Lacks {ℓ} : {K : Type ℓ} → ℕ → List (K × ℕ) → Type 0
Lacks c [] = Unit
Lacks c (e ∷ es) = (e.1 ≢ c) × Lacks c es

-- No two entries have one cell.
abbrev pub Distinct {ℓ} : {K : Type ℓ} → List (K × ℕ) → Type 0
Distinct [] = Unit
Distinct (e ∷ es) = Lacks e.1 es × Distinct es

module _ {ℓ} {K : Type ℓ} where
  pub Lacks-append : (c : ℕ) (xs ys : List (K × ℕ)) → Lacks c (xs ++ ys) ↔ (Lacks c xs × Lacks c ys)
  Lacks-append c [] ys = (λ h. (tt, h), λ h. h.1)
  Lacks-append c (x ∷ xs) ys =
      let ih = Lacks-append c xs ys in
      (λ h. ((h.0, (ih.0 h.1).0), (ih.0 h.1).1), λ h. (h.0.0, ih.1 (h.0.1, h.1)))

  -- An entry is taken out.
  pub Distinct-middle :
      (e : K × ℕ) (xs ys : List (K × ℕ))
      → Distinct (xs ++ e ∷ ys)
      → Distinct (xs ++ ys) × Lacks e.1 (xs ++ ys)
  Distinct-middle e [] ys h = (h.1, h.0)
  Distinct-middle e (x ∷ xs) ys h =
      let ih = Distinct-middle e xs ys h.1 in
      let l = (Lacks-append x.1 xs (e ∷ ys)).0 h.0 in
      (((Lacks-append x.1 xs ys).1 (l.0, l.1.1), ih.0), (λ p. l.1.0 (sym p), ih.1))

  pub Lacks-of_le : (c n : ℕ) (es : List (K × ℕ)) → All (λ e. e.1 < n) es → n ≤ c → Lacks c es
  Lacks-of_le c n [] h le = tt
  Lacks-of_le c n (e ∷ es) h le = (omega arith, Lacks-of_le c n es h.1 le)

  pub holds_cell_cases :
      (c : ℕ) (es : List (K × ℕ))
      → (Lacks c es × (holds_cell es c ≡ false))
        ⊎ ((e : K × ℕ) × (xs : List (K × ℕ)) × (ys : List (K × ℕ)) × (es ≡ xs ++ e ∷ ys)
            × (e.1 ≡ c)
            × (holds_cell es c ≡ true))
  unfolding holds_cell
  holds_cell_cases c [] = inl (tt, refl)
  holds_cell_cases c (e ∷ es) = elim (ℕ_discrete e.1 c) [
    | yes p ↦ inr (e, [], es, refl, p, ground arith)
    | no p ↦ elim (holds_cell_cases c es) [
      | inl h ↦ inl ((p, h.0), ground (arith, h.1))
      | inr (f, xs, ys, same, here, found) ↦
          inr (f, e ∷ xs, ys, ap (◌∷◌ e) same, here, ground (arith, found))
    ]
  ]

  -- The last entry.
  pub get_last?-cases :
      (es : List (K × ℕ))
      → ((es ≡ []) × (get_last? es ≡ none))
        ⊎ ((e : K × ℕ) × (get_last? es ≡ some e) × (es ≡ drop_last es ++ e ∷ []))
  unfolding get_last? drop_last
  get_last?-cases [] = inl (refl, refl)
  get_last?-cases (e ∷ []) = inr (e, refl, refl)
  get_last?-cases (e ∷ f ∷ es) = elim (get_last?-cases (f ∷ es)) [
    | inl h ↦ absurd (cc (h.0))
    | inr (g, last, same) ↦ inr (g, last, ap (◌∷◌ e) same)
  ]

  pub lookup_split :
      (dec : Discrete K) (k : K) (es : List (K × ℕ)) (v : ℕ)
      → lookup dec k es ≡ some v
      → (xs : List (K × ℕ)) × (ys : List (K × ℕ)) × (es ≡ xs ++ (k, v) ∷ ys)
        × (remove dec k es ≡ xs ++ ys)
  unfolding lookup remove
  lookup_split dec k [] v h = cc
  lookup_split dec k (e ∷ es) v h = elim (dec e.0 k) [
    | yes p ↦ ([], es, ground arith, rw (if_pos _ p))
    | no p ↦
        let (xs, ys, same, rest) = lookup_split dec k es v (ground arith) in
        (e ∷ xs, ys, ap (◌∷◌ e) same, rw (if_neg _ p, rest))
  ]

module _ {ℓ κ} {K : Type ℓ} {R : Type κ} (w : Option R → ℕ) where
  pub total : (ℕ → Option R) → List (K × ℕ) → ℕ
  total cells [] = 0
  total cells (e ∷ es) = w (cells e.1) + total cells es

  pub total-empty : (cells : ℕ → Option R) (es : List (K × ℕ)) → es ≡ [] → total cells es ≡ 0
  unfolding total
  total-empty cells es e = rw e

  pub total-cons :
      (cells : ℕ → Option R) (e : K × ℕ) (es : List (K × ℕ))
      → total cells (e ∷ es) ≡ w (cells e.1) + total cells es
  unfolding total
  total-cons cells e es = refl

  pub total-middle :
      (cells : ℕ → Option R) (e : K × ℕ) (xs ys : List (K × ℕ))
      → total cells (xs ++ e ∷ ys) ≡ w (cells e.1) + total cells (xs ++ ys)
  unfolding total
  total-middle cells e [] ys = refl
  total-middle cells e (x ∷ xs) ys = omega (arith, total-middle cells e xs ys)

  -- Only the cells of the entries matter.
  pub total-same :
      (cells cells' : ℕ → Option R) (es : List (K × ℕ)) (c : ℕ)
      → Lacks c es
      → ((d : ℕ) → d ≢ c → cells' d ≡ cells d)
      → total cells' es ≡ total cells es
  unfolding total
  total-same cells cells' [] c h same = refl
  total-same cells cells' (e ∷ es) c h same =
      rw (same e.1 h.0, total-same cells cells' es c h.1 same)
