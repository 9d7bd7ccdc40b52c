-- ===== src/Tasks/Inserted.antt =====
-- The block under the lock: the key's entry moves to the front of the cache, and others go.
use mathlib.Core.List.{lookup, map}
use server.Cache.Claim.{Books-add, Books-front}
use server.Cache.Invariant.{Books}
use server.Cache.Totals.{Lacks, Distinct, Distinct-middle, Lacks-append, total-middle, lookup_split}
use server.Cache.{CacheStorage, CachedResource, CachedResourceKey, CachedResourceKey-discrete}
use server.Lru.Entries.{
  slot-present, touched-present, pushed_out-present, slot-absent, touched-absent, pushed_out-absent,
  overwritten-front,
}
use server.Lru.{LruCache}
use server.Cache.Invariant.{reserved_in, counts_for}
use server.Prelude.{
  ℕ, ◌+◌, ◌-◌, ◌≤◌, ◌<◌, ◌≡◌, refl, sym, ap, ◌∙◌, subst, inl, inr, Option, none, some, List, [],
  ◌∷◌, ◌++◌, append_assoc, length, length-append, length-take-le, take, drop, take-append-drop,
  arith, All-append, All-left, All-right, Option-cases,
}
use server.Tasks.Defs.{Among}
use server.Tasks.Invariant.{In, entries}
use server.Tasks.Members.{In-middle, In-middle_back}

module _ {K : Type 0} where
  Distinct-middle_back :
      (e : K × ℕ) (xs ys : List (K × ℕ))
      → Distinct (xs ++ ys)
      → Lacks e.1 (xs ++ ys)
      → Distinct (xs ++ e ∷ ys)
  Distinct-middle_back e [] ys d l = (l, d)
  Distinct-middle_back e (x ∷ xs) ys d l =
      let (lx, ly) = (Lacks-append x.1 xs ys).0 d.0 in
      (
        (Lacks-append x.1 xs (e ∷ ys)).1 (lx, ((λ p. l.0 (sym p)), ly)),
        Distinct-middle_back e xs ys d.1 l.1,
      )

  pub Among-map :
      (e : K × ℕ) (es : List (K × ℕ)) → In e es → Among e.1 (map (λ (x : K × ℕ). x.1) es)
  Among-map e [] m = absurd m
  Among-map e (x ∷ es) (inl p) = inl (ap (λ (y : K × ℕ). y.1) p)
  Among-map e (x ∷ es) (inr m) = inr (Among-map e es m)

module _ (lru : LruCache CachedResourceKey ℕ CachedResourceKey-discrete) where
  -- The entry behind the first one moves away from the front.
  Books-back :
      {capacity : ℕ} {extra : Option CachedResource} (f e : CachedResourceKey × ℕ)
      (xs ys : List (CachedResourceKey × ℕ)) (s : CacheStorage lru)
      → Books lru capacity extra (f ∷ e ∷ (xs ++ ys)) s
      → Books lru capacity extra (f ∷ (xs ++ e ∷ ys)) s
  Books-back f e xs ys s h =
      let ps = f ∷ xs in
      let far = h.allocated.1.1 in
      record {
        conserved = omega (
          arith,
          h.conserved,
          total-middle reserved_in s.cells e ps ys,
          total-middle reserved_in s.cells e (f ∷ []) (xs ++ ys),
        );
        gauges = λ g. omega (
          arith,
          h.gauges g,
          total-middle (counts_for g) s.cells e ps ys,
          total-middle (counts_for g) s.cells e (f ∷ []) (xs ++ ys),
        );
        distinct =
            let (d, l) = Distinct-middle e (f ∷ []) (xs ++ ys) h.distinct in
            Distinct-middle_back e ps ys d l;
        allocated = (
          h.allocated.0,
          All-append (λ x. x.1 < s.next_cell) xs (e ∷ ys)
              (All-left (λ x. x.1 < s.next_cell) xs ys far)
              (h.allocated.1.0, All-right (λ x. x.1 < s.next_cell) xs ys far),
        );
        stray = λ c l.
            let (lx, ly) = (Lacks-append c xs (e ∷ ys)).0 l.1 in
            h.stray c (l.0, (ly.0, (Lacks-append c xs ys).1 (lx, ly.1)));
      }

  -- The storage with the key's entry in front; `gone` are the entries that were pushed out.
  pub record Front (capacity : ℕ) (key : CachedResourceKey) (v : ℕ)
      (gone orphans : List (CachedResourceKey × ℕ)) (s s1 : CacheStorage lru) : Type 0 where
    pub rest : List (CachedResourceKey × ℕ)
    pub front : entries lru s1 ≡ (key, v) ∷ rest
    pub books : Books lru capacity none ((key, v) ∷ (rest ++ (gone ++ orphans))) s1
    pub more :
        (x : CachedResourceKey × ℕ)
        → In x (entries lru s ++ orphans)
        → In x ((key, v) ∷ (rest ++ (gone ++ orphans)))
    pub same_cells : s1.cells ≡ s.cells
    pub roomy : 0 < lru.cap s1.cached_resources
    pub bounded : length rest + 1 ≤ lru.cap s1.cached_resources

  abbrev dec : Discrete CachedResourceKey
  dec = CachedResourceKey-discrete

  abbrev pub inserted : CachedResourceKey → CacheStorage lru → CacheStorage lru
  inserted k s = record s {
    cached_resources = (lru.get_or_insert_mut_ref k s.next_cell s.cached_resources).2;
    next_cell = s.next_cell + 1;
  }

  abbrev pub renewed : CachedResourceKey → CacheStorage lru → CacheStorage lru
  renewed k s = record (inserted k s) {
    cached_resources = lru.assign k (s.next_cell + 1) (inserted k s).cached_resources;
    next_cell = s.next_cell + 1 + 1;
  }

  module _ {capacity : ℕ} (k : CachedResourceKey) (s : CacheStorage lru)
      (orphans : List (CachedResourceKey × ℕ))
      (books : Books lru capacity none (entries lru s ++ orphans) s)
      (roomy : 0 < lru.cap s.cached_resources)
      (bounded : length (entries lru s) ≤ lru.cap s.cached_resources) where
    pub inserted-present :
        (v : ℕ)
        → lookup dec k (entries lru s) ≡ some v
        → ((lru.get_or_insert_mut_ref k s.next_cell s.cached_resources).0 ≡ v)
          × ((lru.get_or_insert_mut_ref k s.next_cell s.cached_resources).1 ≡ [])
          × Front capacity k v [] orphans s (inserted k s)
    inserted-present v present =
        let es = entries lru s in
        let laws = lru.get_or_insert_lem k s.next_cell s.cached_resources in
        let (xs, ys, same, removed) = lookup_split dec k es v present in
        let split : es ++ orphans ≡ xs ++ (k, v) ∷ (ys ++ orphans) =
          ap (λ l. l ++ orphans) same ∙ append_assoc xs ((k, v) ∷ ys) orphans in
        let joined = append_assoc xs ys orphans in
        (
          laws.0 ∙ slot-present dec k s.next_cell es v present,
          laws.1 ∙ pushed_out-present dec k s.next_cell es v present (lru.cap s.cached_resources),
          record {
            rest = xs ++ ys;
            front =
                laws.2
                ∙ touched-present dec k s.next_cell es v present (lru.cap s.cached_resources)
                ∙ ap (◌∷◌ (k, v)) removed;
            books =
                subst (λ l. Books lru capacity none ((k, v) ∷ l) (inserted k s)) (sym joined)
                  (Books-front lru (k, v) xs (ys ++ orphans) s _
                    (subst (λ l. Books lru capacity none l s) split books));
            more = λ x m.
                subst (λ l. In x ((k, v) ∷ l)) (sym joined)
                  (In-middle x (k, v) xs (ys ++ orphans) (subst (In x) split m));
            same_cells = refl;
            roomy = rw laws.3 roomy;
            bounded = omega (
              arith,
              bounded,
              laws.3,
              ap length same,
              length-append xs ((k, v) ∷ ys),
              length-append xs ys,
            );
          },
        )

    pub inserted-absent :
        lookup dec k (entries lru s) ≡ none
        → (gone : List (CachedResourceKey × ℕ)) × ((lru.get_or_insert_mut_ref k s.next_cell
              s.cached_resources).0
            ≡ s.next_cell)
          × ((lru.get_or_insert_mut_ref k s.next_cell s.cached_resources).1 ≡ gone)
          × Front capacity k s.next_cell gone orphans s (inserted k s)
    inserted-absent absent =
        let es = entries lru s in
        let n = lru.cap s.cached_resources in
        let laws = lru.get_or_insert_lem k s.next_cell s.cached_resources in
        let (empty, added) =
          Books-add lru k (es ++ orphans) s (inserted k s).cached_resources books in
        let split : es ++ orphans ≡ take (n - 1) es ++ (drop (n - 1) es ++ orphans) =
          ap (λ l. l ++ orphans) (sym (take-append-drop (n - 1) es))
          ∙ append_assoc (take (n - 1) es) (drop (n - 1) es) orphans in
        (
          drop (n - 1) es,
          laws.0 ∙ slot-absent dec k s.next_cell es absent,
          laws.1 ∙ pushed_out-absent dec k s.next_cell es absent n,
          record {
            rest = take (n - 1) es;
            front = laws.2 ∙ touched-absent dec k s.next_cell es absent n;
            books =
                subst (λ l. Books lru capacity none ((k, s.next_cell) ∷ l) (inserted k s)) split
                  added;
            more = λ x m. inr (subst (In x) split m);
            same_cells = refl;
            roomy = rw laws.3 roomy;
            bounded = rw laws.3 (omega (arith, roomy, length-take-le (n - 1) es));
          },
        )

    pub inserted-Front :
        (v : ℕ) × (gone : List (CachedResourceKey × ℕ)) × ((lru.get_or_insert_mut_ref k s.next_cell
            s.cached_resources).0
          ≡ v)
        × ((lru.get_or_insert_mut_ref k s.next_cell s.cached_resources).1 ≡ gone)
        × Front capacity k v gone orphans s (inserted k s)
    inserted-Front = elim (Option-cases (lookup dec k (entries lru s))) [
      | inl absent ↦
          let (gone, slot, pushed, front) = inserted-absent absent in
          (s.next_cell, gone, slot, pushed, front)
      | inr (v, present) ↦
          let (slot, pushed, front) = inserted-present v present in (v, [], slot, pushed, front)
    ]

  -- The expired cell is replaced by a new one, and goes with the entries that were pushed out.
  pub Front-renewed :
      {capacity : ℕ} (k : CachedResourceKey) (v : ℕ) (gone orphans : List (CachedResourceKey × ℕ))
      (s s1 : CacheStorage lru)
      → Front capacity k v gone orphans s s1
      → Front capacity k s1.next_cell ((k, v) ∷ gone) orphans s (record s1 {
        cached_resources = lru.assign k s1.next_cell s1.cached_resources;
        next_cell = s1.next_cell + 1;
      })
  Front-renewed k v gone orphans s s1 f =
      let n = s1.next_cell in
      let laws = lru.assign_lem k n s1.cached_resources in
      let (empty, added) =
        Books-add lru k ((k, v) ∷ (f.rest ++ (gone ++ orphans))) s1
          (lru.assign k n s1.cached_resources) f.books in
      record {
        rest = f.rest;
        front = laws.0 ∙ rw f.front (overwritten-front dec k n f.rest v);
        books = Books-back (k, n) (k, v) f.rest (gone ++ orphans) _ added;
        more = λ x m. inr (In-middle_back x (k, v) f.rest (gone ++ orphans) (f.more x m));
        same_cells = f.same_cells;
        roomy = rw laws.1 f.roomy;
        bounded = rw laws.1 f.bounded;
      }
