-- ===== src/Lru/Model.antt =====
-- The crates `lru` and `tokio::sync::OnceCell`, as far as src/cache.rs uses them: parameters of the
-- model. What their documentation promises is stated against the list of entries, which
-- `LruCache::iter` gives: the most recently used one first.
use mathlib.Core.List.{lookup}
use server.Prelude.{
  ℕ, ◌-◌, ◌≡◌, Option, none, some, List, [], ◌∷◌, take, drop, ite, Result, ok, err, Run, done,
}

-- The last element of a list, and the list without it.
module _ {ℓ} {A : Type ℓ} where
  unfoldable pub get_last? : List A → Option A
  get_last? [] = none
  get_last? (x ∷ []) = some x
  get_last? (x ∷ y ∷ ys) = get_last? (y ∷ ys)

  unfoldable pub drop_last : List A → List A
  drop_last [] = []
  drop_last (x ∷ []) = []
  drop_last (x ∷ y ∷ ys) = x ∷ drop_last (y ∷ ys)

-- What the calls do to the list of entries.
module _ {ℓ κ} {K : Type ℓ} {V : Type κ} (dec : Discrete K) where
  -- Drops the first entry of a key.
  unfoldable pub remove : K → List (K × V) → List (K × V)
  remove k [] = []
  remove k (e ∷ es) = ite (dec e.0 k) es (e ∷ remove k es)

  -- The value of the key, or `v` if it has none.
  unfoldable pub slot : K → V → List (K × V) → V
  slot k v es = elim (lookup dec k es) [ some w ↦ w | none ↦ v ]

  -- The entries after the key was looked up, and put in front with the value `v` if it was absent.
  unfoldable pub touched : K → V → ℕ → List (K × V) → List (K × V)
  touched k v cap es = elim (lookup dec k es) [
    | some w ↦ (k, w) ∷ remove k es
    | none ↦ (k, v) ∷ take (cap - 1) es
  ]

  -- The entries that this pushes out.
  unfoldable pub pushed_out : K → ℕ → List (K × V) → List (K × V)
  pushed_out k cap es = elim (lookup dec k es) [ some w ↦ [] | none ↦ drop (cap - 1) es ]

  -- The value of the key is overwritten.
  unfoldable pub overwritten : K → V → List (K × V) → List (K × V)
  overwritten k v [] = []
  overwritten k v (e ∷ es) = ite (dec e.0 k) ((k, v) ∷ es) (e ∷ overwritten k v es)

-- `lru::LruCache<K, V>`. `get_or_insert_mut_ref key v` gives the value behind the reference that
-- the method returns, the entries that it pushes out and drops, and the cache; `assign` writes
-- through that reference.
pub record LruCache (K V : Type 0) (dec : Discrete K) : Type 1 where
  pub State : Type 0
  pub new : ℕ → State
  pub get_or_insert_mut_ref : K → V → State → V × List (K × V) × State
  pub assign : K → V → State → State
  pub pop_lru : State → Option (K × V) × State
  pub entries : State → List (K × V)
  pub cap : State → ℕ
  pub new_lem : (n : ℕ) → (entries (new n) ≡ []) × (cap (new n) ≡ n)
  pub get_or_insert_lem :
      (k : K) (v : V) (s : State)
      → ((get_or_insert_mut_ref k v s).0 ≡ slot dec k v (entries s))
        × ((get_or_insert_mut_ref k v s).1 ≡ pushed_out dec k (cap s) (entries s))
        × (entries (get_or_insert_mut_ref k v s).2 ≡ touched dec k v (cap s) (entries s))
        × (cap (get_or_insert_mut_ref k v s).2 ≡ cap s)
  pub assign_lem :
      (k : K) (v : V) (s : State)
      → (entries (assign k v s) ≡ overwritten dec k v (entries s)) × (cap (assign k v s) ≡ cap s)
  pub pop_lru_lem :
      (s : State)
      → ((pop_lru s).0 ≡ get_last? (entries s))
        × (entries (pop_lru s).1 ≡ drop_last (entries s))
        × (cap (pop_lru s).1 ≡ cap s)

-- `OnceCell<A>`: `Option A` is what `get` gives. `get_or_try_init` runs the closure, which may
-- change a state `S`, only on an empty cell, and fills the cell only with the closure's success.
pub record OnceCell : Type 1 where
  pub get_or_try_init :
      {E A S : Type 0} → Option A → (S → Run (Result E A × S)) → S → Run (Result E A × Option A × S)
  pub init_filled :
      {E A S : Type 0} (a : A) (f : S → Run (Result E A × S)) (s : S)
      → get_or_try_init (some a) f s ≡ done (ok a, some a, s)
  pub init_ok :
      {E A S : Type 0} (f : S → Run (Result E A × S)) (s : S) (a : A) (s' : S)
      → f s ≡ done (ok a, s')
      → get_or_try_init none f s ≡ done (ok a, some a, s')
  pub init_err :
      {E A S : Type 0} (f : S → Run (Result E A × S)) (s : S) (e : E) (s' : S)
      → f s ≡ done (err e, s')
      → get_or_try_init none f s ≡ done (err e, none, s')
