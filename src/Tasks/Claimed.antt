-- ===== src/Tasks/Claimed.antt =====
-- src/cache.rs, `Cache::get`: the claim of a cell, by a request by itself and by a task alone.
use mathlib.Core.List.{lookup, map}
use server.Cache.Claim.{IsValid}
use server.Cache.Invariant.{Books}
use server.Cache.Totals.{Distinct, Lacks-of_le}
use server.Cache.{
  CacheStorage, CachedResource, CachedResourceKey, CachedResourceKey-discrete, is_stale,
  insert_cell, renew_cell, claim_cell, drop_cell, drop_entries,
}
use server.Lru.{LruCache}
use server.Prelude.{
  ℕ, ◌+◌, ◌≡◌, refl, sym, ap, ◌∙◌, subst, inl, inr, Option, none, List, [], ◌∷◌, ◌++◌, append-nil,
  arith, true, false, Bool-cases, Option-cases, Run, done, ◌>>=◌, bind-done, done-pair,
  if◌then◌else◌,
}
use server.Tasks.Alone.{At, drop_all, go, nobody}
use server.Tasks.Losses.{drop_cell-kept}
use server.Tasks.Claims.{claim-fresh, claim-stale}
use server.Tasks.Inserted.{
  Front, Front-renewed, inserted, renewed, inserted-present, inserted-absent,
}
use server.Tasks.Defs.{Job, Task, System, wants_lock, claimed, has_lock}
use server.Tasks.Invariant.{In, entries}
use server.Tasks.Steps.{claims, claim, at_phase}

module _ (lru : LruCache CachedResourceKey ℕ CachedResourceKey-discrete) where
  drop_entries-empty :
      (gone : List (CachedResourceKey × ℕ)) (c : ℕ) (s s' : CacheStorage lru)
      → drop_entries lru gone s ≡ done s'
      → s.cells c ≡ none
      → s'.cells c ≡ none
  unfolding drop_entries
  drop_entries-empty [] c s s' ran empty =
      let same : s ≡ s' = cc ran in subst (λ (y : CacheStorage lru). y.cells c ≡ none) same empty
  drop_entries-empty (e ∷ gone) c s s' ran empty =
      let (s1, ran1, ran2) = bind-done (drop_cell lru e.1 s) (drop_entries lru gone) s' ran in
      drop_entries-empty gone c s1 s' ran2 (elim (Option-cases (s1.cells c)) [
        | inl blank ↦ blank
        | inr (r, full) ↦ absurd (cc (empty, (drop_cell-kept lru e.1 s s1 ran1).1 c r full))
      ])

  -- `claim_cell` in its parts.
  pub claim_cell-parts :
      (k : CachedResourceKey) (now c' : ℕ) (s s' : CacheStorage lru) (v : ℕ)
      (gone : List (CachedResourceKey × ℕ))
      → (lru.get_or_insert_mut_ref k s.next_cell s.cached_resources).0 ≡ v
      → (lru.get_or_insert_mut_ref k s.next_cell s.cached_resources).1 ≡ gone
      → claim_cell lru k now s ≡ done (c', s')
      → (s1 : CacheStorage lru) × (drop_entries lru gone (inserted lru k s) ≡ done s1)
        × (renew_cell lru k now v s1 ≡ done (c', s'))
  unfolding claim_cell insert_cell
  claim_cell-parts k now c' s s' v gone slot pushed ran =
      let (x, ran1, ran2) =
        bind-done (insert_cell lru k s) (λ (x : ℕ × CacheStorage lru). renew_cell lru k now x.0 x.1)
          (c', s') ran in
      let cell = (lru.get_or_insert_mut_ref k s.next_cell s.cached_resources).0 in
      let old = (lru.get_or_insert_mut_ref k s.next_cell s.cached_resources).1 in
      let (s1, ran3, ran4) =
        bind-done (drop_entries lru old (inserted lru k s))
          (λ (y : CacheStorage lru). done (cell, y)) x ran1 in
      let is : x ≡ (v, s1) = cc (ran4, slot) in
      (
        s1,
        subst (λ l. drop_entries lru l (inserted lru k s) ≡ done s1) pushed ran3,
        subst (λ (y : ℕ × CacheStorage lru). renew_cell lru k now y.0 y.1 ≡ done (c', s')) is ran2,
      )

  pub renew_cell-stale :
      (k : CachedResourceKey) (now v c' : ℕ) (s s' : CacheStorage lru)
      → is_stale (s.cells v) now ≡ true
      → renew_cell lru k now v s ≡ done (c', s')
      → (s.next_cell ≡ c')
        × (drop_entries lru ((k, v) ∷ []) (record s {
          cached_resources = lru.assign k s.next_cell s.cached_resources;
          next_cell = s.next_cell + 1;
        })
            ≡ done s')
  unfolding renew_cell drop_entries
  renew_cell-stale k now v c' s s' stale ran =
      let st = record s {
        cached_resources = lru.assign k s.next_cell s.cached_resources;
        next_cell = s.next_cell + 1;
      } in
      let renumbered : CacheStorage lru → Run (ℕ × CacheStorage lru) = λ y. done (s.next_cell, y) in
      let run : drop_cell lru v st >>= renumbered ≡ done (c', s') =
        subst (λ b. (if b then drop_cell lru v st >>= renumbered else done (v, s)) ≡ done (c', s'))
          stale ran in
      let (s1, ran1, ran2) = bind-done (drop_cell lru v st) renumbered (c', s') run in
      let (same, is) = done-pair s.next_cell c' s1 s' ran2 in (same, rw ran1 (ap done is))

  pub renew_cell-fresh :
      (k : CachedResourceKey) (now v c' : ℕ) (s s' : CacheStorage lru)
      → is_stale (s.cells v) now ≡ false
      → renew_cell lru k now v s ≡ done (c', s')
      → (v ≡ c') × (s ≡ s')
  unfolding renew_cell
  renew_cell-fresh k now v c' s s' fresh ran =
      let renumbered : CacheStorage lru → Run (ℕ × CacheStorage lru) = λ y. done (s.next_cell, y) in
      let st = record s {
        cached_resources = lru.assign k s.next_cell s.cached_resources;
        next_cell = s.next_cell + 1;
      } in
      done-pair v c' s s' (
        subst (λ b. (if b then drop_cell lru v st >>= renumbered else done (v, s)) ≡ done (c', s'))
          fresh ran)

  -- What the block under the lock makes of the cache: `gone` are the entries to drop.
  abbrev Makes :
      ℕ → Job → CacheStorage lru → ℕ → List (CachedResourceKey × ℕ) → CacheStorage lru → Type 0
  Makes capacity job s c gone s1 =
      (claim lru job s ≡ (
        record {
          job = job;
          phase = claimed c;
          drops = map (λ (x : CachedResourceKey × ℕ). x.1) gone;
        },
        s1,
      ))
      × ((c' : ℕ) (s' : CacheStorage lru)
          → claim_cell lru job.key job.now s ≡ done (c', s')
          → (c ≡ c') × (drop_entries lru gone s1 ≡ done s'))
      × Front lru capacity job.key c gone [] s s1

  module _ {capacity : ℕ} (job : Job) (s : CacheStorage lru) (valid : IsValid lru capacity s) where
    books : Books lru capacity none (entries lru s ++ []) s
    books = subst (λ l. Books lru capacity none l s) (sym (append-nil (entries lru s))) valid.books

    stale-Makes :
        (v : ℕ)
        → (lru.get_or_insert_mut_ref job.key s.next_cell s.cached_resources).0 ≡ v
        → (lru.get_or_insert_mut_ref job.key s.next_cell s.cached_resources).1 ≡ []
        → is_stale (s.cells v) job.now ≡ true
        → Front lru capacity job.key v [] [] s (inserted lru job.key s)
        → Makes capacity job s (s.next_cell + 1) ((job.key, v) ∷ []) (renewed lru job.key s)
    unfolding claim_cell insert_cell renew_cell drop_entries
    stale-Makes v slot pushed stale front = (
      claim-stale lru job s v [] slot pushed stale,
      λ c' s' ran.
          let (s1, ran1, ran2) = claim_cell-parts job.key job.now c' s s' v [] slot pushed ran in
          let is : inserted lru job.key s ≡ s1 = cc ran1 in
          renew_cell-stale job.key job.now v c' (inserted lru job.key s) s' stale (
            subst (λ (y : CacheStorage lru). renew_cell lru job.key job.now v y ≡ done (c', s'))
              (sym is) ran2),
      Front-renewed lru job.key v [] [] s (inserted lru job.key s) front,
    )

    fresh-Makes :
        (v : ℕ)
        → (lru.get_or_insert_mut_ref job.key s.next_cell s.cached_resources).0 ≡ v
        → (lru.get_or_insert_mut_ref job.key s.next_cell s.cached_resources).1 ≡ []
        → is_stale (s.cells v) job.now ≡ false
        → Front lru capacity job.key v [] [] s (inserted lru job.key s)
        → Makes capacity job s v [] (inserted lru job.key s)
    unfolding claim_cell insert_cell renew_cell drop_entries
    fresh-Makes v slot pushed fresh front = (
      claim-fresh lru job s v [] slot pushed fresh,
      λ c' s' ran.
          let (s1, ran1, ran2) = claim_cell-parts job.key job.now c' s s' v [] slot pushed ran in
          let is : inserted lru job.key s ≡ s1 = cc ran1 in
          let (same, kept) =
            renew_cell-fresh job.key job.now v c' (inserted lru job.key s) s' fresh (
              subst (λ (y : CacheStorage lru). renew_cell lru job.key job.now v y ≡ done (c', s'))
                (sym is) ran2) in
          (same, ap done kept),
      front,
    )

    absent-Makes :
        (gone : List (CachedResourceKey × ℕ))
        → (lru.get_or_insert_mut_ref job.key s.next_cell s.cached_resources).0 ≡ s.next_cell
        → (lru.get_or_insert_mut_ref job.key s.next_cell s.cached_resources).1 ≡ gone
        → Front lru capacity job.key s.next_cell gone [] s (inserted lru job.key s)
        → Makes capacity job s s.next_cell gone (inserted lru job.key s)
    unfolding is_stale
    absent-Makes gone slot pushed front =
        let n = s.next_cell in
        let blank : s.cells n ≡ none =
          valid.books.stray n
            (Lacks-of_le n n (entries lru s) valid.books.allocated (omega arith)) in
        let fresh : (o : Option CachedResource) → o ≡ none → is_stale o job.now ≡ false =
          λ o empty. rw empty refl in
        (
          claim-fresh lru job s n gone slot pushed (fresh (s.cells n) blank),
          λ c' s' ran.
              let (s1, ran1, ran2) =
                claim_cell-parts job.key job.now c' s s' n gone slot pushed ran in
              let (same, kept) =
                renew_cell-fresh job.key job.now n c' s1 s'
                  (fresh (s1.cells n)
                    (drop_entries-empty gone n (inserted lru job.key s) s1 ran1 blank))
                  ran2 in
              (same, ran1 ∙ ap done kept),
          front,
        )

    makes :
        (c : ℕ) × (gone : List (CachedResourceKey × ℕ)) × (s1 : CacheStorage lru) × Makes capacity
          job s c gone s1
    makes = elim (Option-cases (lookup CachedResourceKey-discrete job.key (entries lru s))) [
      | inl absent ↦
          let (gone, slot, pushed, front) =
            inserted-absent lru job.key s [] books valid.roomy valid.bounded absent in
          (s.next_cell, gone, inserted lru job.key s, absent-Makes gone slot pushed front)
      | inr (v, present) ↦
          let (slot, pushed, front) =
            inserted-present lru job.key s [] books valid.roomy valid.bounded v present in
          elim (Bool-cases (is_stale (s.cells v) job.now)) [
            | inl stale ↦ (
              s.next_cell + 1,
              (job.key, v) ∷ [],
              renewed lru job.key s,
              stale-Makes v slot pushed stale front,
            )
            | inr fresh ↦ (v, [], inserted lru job.key s, fresh-Makes v slot pushed fresh front)
          ]
    ]

  -- A task alone claims the cell that `claim_cell` gives, and lets go of what goes.
  pub claims-At :
      {capacity : ℕ} (start : System lru) (i : ℕ) (job : Job) (c : ℕ) (s s' : CacheStorage lru)
      → IsValid lru capacity s
      → claim_cell lru job.key job.now s ≡ done (c, s')
      → At lru start i (at_phase job wants_lock) s
      → At lru start i (at_phase job (claimed c)) s'
  claims-At start i job c s s' valid ran at =
      let (v, gone, s1, made) = makes job s valid in
      let (made, runs, front) = made in
      let (same, drops) = runs c s' ran in
      let t : Task = record {
        job = job;
        phase = claimed v;
        drops = map (λ (x : CachedResourceKey × ℕ). x.1) gone;
      } in
      let es = entries lru s1 in
      let distinct : Distinct (es ++ gone) =
        subst (λ l. Distinct (l ++ gone)) (sym front.front)
          (subst (λ l. Distinct ((job.key, v) ∷ (front.rest ++ l))) (append-nil gone)
            front.books.distinct) in
      let m : In (job.key, v) es = subst (In (job.key, v)) (sym front.front) (inl refl) in
      let claimed_at : At lru start i t s1 =
        subst (λ (x : Task × CacheStorage lru). At lru start i x.0 x.1) made
          (go lru start i (at_phase job wants_lock) (claim lru job s).0 s (claim lru job s).1
            (λ tasks own others.
              claims i job own
                (nobody lru start i has_lock wants_lock tasks job refl refl own others) refl)
            at) in
      subst (λ n. At lru start i (at_phase job (claimed n)) s') same
        (drop_all lru start i gone job (claimed v) v s1 s' distinct refl m drops claimed_at)
