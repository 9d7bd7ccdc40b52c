-- ===== src/Lru/Entries.antt =====
-- The lists of entries that the laws of the cache name, case by case.
use mathlib.Core.List.{lookup}
use server.Lru.Model.{remove, slot, touched, pushed_out, overwritten}
use server.Prelude.{ℕ, ◌-◌, ◌≡◌, refl, none, some, List, [], ◌∷◌, take, drop, if_pos}

module _ {ℓ κ} {K : Type ℓ} {V : Type κ} (dec : Discrete K) (k : K) (d : V)
    (es : List (K × V)) where
  module _ (v : V) (present : lookup dec k es ≡ some v) where
    pub slot-present : slot dec k d es ≡ v
    unfolding slot
    slot-present = rw (present, slot)

    pub touched-present : (cap : ℕ) → touched dec k d cap es ≡ (k, v) ∷ remove dec k es
    unfolding touched
    touched-present cap = rw (present, touched)

    pub pushed_out-present : (cap : ℕ) → pushed_out dec k cap es ≡ []
    unfolding pushed_out
    pushed_out-present cap = rw (present, pushed_out)

  module _ (absent : lookup dec k es ≡ none) where
    pub slot-absent : slot dec k d es ≡ d
    unfolding slot
    slot-absent = rw (absent, slot)

    pub touched-absent : (cap : ℕ) → touched dec k d cap es ≡ (k, d) ∷ take (cap - 1) es
    unfolding touched
    touched-absent cap = rw (absent, touched)

    pub pushed_out-absent : (cap : ℕ) → pushed_out dec k cap es ≡ drop (cap - 1) es
    unfolding pushed_out
    pushed_out-absent cap = rw (absent, pushed_out)

  pub overwritten-front : (v : V) → overwritten dec k d ((k, v) ∷ es) ≡ (k, d) ∷ es
  unfolding overwritten
  overwritten-front v = if_pos (dec k k) refl _ _
