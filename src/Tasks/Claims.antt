-- ===== src/Tasks/Claims.antt =====
-- The block under the lock: what the task claims, and what it is to drop.
use mathlib.Core.List.{map}
use server.Cache.Invariant.{Books}
use server.Cache.{
  CacheStorage, CachedResource, CachedResourceKey, CachedResourceKey-discrete, is_stale,
}
use server.Lru.{LruCache}
use server.Prelude.{
  ℕ, ◌+◌, ◌≡◌, ◌⊎◌, refl, sym, ap, ◌∙◌, subst, inl, inr, Option, none, List, ◌∷◌, ◌++◌, length,
  true, false, arith, Bool-cases,
}
use server.Tasks.Defs.{Job, Task, System, wants_lock, claimed, Holds}
use server.Tasks.Invariant.{In, Sound, Sound-update, set_task-Holds, set_task_self, entries}
use server.Tasks.Members.{In-append}
use server.Tasks.Quiet.{Fine-plain}
use server.Tasks.Steps.{LockFree, at_phase, claim, update}
use server.Tasks.Inserted.{Among-map, Front, inserted, renewed, inserted-Front, Front-renewed}

module _ (lru : LruCache CachedResourceKey ℕ CachedResourceKey-discrete) where
  module _ (job : Job) (s : CacheStorage lru) (v : ℕ) (gone : List (CachedResourceKey × ℕ))
      (slot : (lru.get_or_insert_mut_ref job.key s.next_cell s.cached_resources).0 ≡ v)
      (pushed : (lru.get_or_insert_mut_ref job.key s.next_cell s.cached_resources).1 ≡ gone) where
    pub claim-fresh :
        is_stale (s.cells v) job.now ≡ false
        → claim lru job s ≡ (
          record {
            job = job;
            phase = claimed v;
            drops = map (λ (x : CachedResourceKey × ℕ). x.1) gone;
          },
          inserted lru job.key s,
        )
    unfolding claim
    claim-fresh fresh = rw (slot, pushed, claim) (rw fresh)

    pub claim-stale :
        is_stale (s.cells v) job.now ≡ true
        → claim lru job s ≡ (
          record {
            job = job;
            phase = claimed (s.next_cell + 1);
            drops = map (λ (x : CachedResourceKey × ℕ). x.1) ((job.key, v) ∷ gone);
          },
          renewed lru job.key s,
        )
    unfolding claim
    claim-stale stale = rw (slot, pushed, claim) (rw stale)

    pub claim-cases :
        (claim lru job s ≡ (
          record {
            job = job;
            phase = claimed v;
            drops = map (λ (x : CachedResourceKey × ℕ). x.1) gone;
          },
          inserted lru job.key s,
        ))
        ⊎ (claim lru job s ≡ (
          record {
            job = job;
            phase = claimed (s.next_cell + 1);
            drops = map (λ (x : CachedResourceKey × ℕ). x.1) ((job.key, v) ∷ gone);
          },
          renewed lru job.key s,
        ))
    claim-cases = elim (Bool-cases (is_stale (s.cells v) job.now)) [
      | inl stale ↦ inr (claim-stale stale)
      | inr fresh ↦ inl (claim-fresh fresh)
    ]

  module _ {capacity : ℕ} (s : System lru) (h : Sound lru capacity s) (i : ℕ) (job : Job)
      (e : s.tasks i ≡ at_phase job wants_lock) (free : LockFree lru s) where
    Front-Sound :
        (v : ℕ) (gone : List (CachedResourceKey × ℕ)) (st : CacheStorage lru)
        → Front lru capacity job.key v gone h.orphans s.storage st
        → Sound lru capacity (
            update lru s i (
              record {
                job = job;
                phase = claimed v;
                drops = map (λ (x : CachedResourceKey × ℕ). x.1) gone;
              },
              st,
            ))
    Front-Sound v gone st f =
        let t : Task = record {
          job = job;
          phase = claimed v;
          drops = map (λ (x : CachedResourceKey × ℕ). x.1) gone;
        } in
        let same : entries lru st ++ (gone ++ h.orphans)
            ≡ (job.key, v) ∷ (f.rest ++ (gone ++ h.orphans)) =
          ap (λ l. l ++ (gone ++ h.orphans)) f.front in
        Sound-update lru s h i t st (gone ++ h.orphans)
          (subst (λ l. Books lru capacity none l st) (sym same) f.books) f.roomy
          (omega (arith, f.bounded, ap length f.front))
          (λ x m. elim (In-append x gone h.orphans m) [
            | inl new ↦ (
              i,
              subst (λ (y : Task). Holds y x.1) (sym (set_task_self s.tasks i t))
                  (inr (Among-map x gone new)),
            )
            | inr was ↦
                set_task-Holds s.tasks i t
                  (λ d p. elim (subst (λ (y : Task). Holds y d) e p) [
                    | inl q ↦ absurd (cc)
                    | inr q ↦ absurd q
                  ])
                  x.1 (h.owned x was)
          ])
          (λ j p g. record {
            known = λ c q. subst (In ((s.tasks j).job.key, c)) (sym same) (f.more _ (g.known c q));
            blank = λ c q. ap (λ (y : ℕ → Option CachedResource). y c) f.same_cells ∙ g.blank c q;
            filled =
                λ c r q. ap (λ (y : ℕ → Option CachedResource). y c) f.same_cells ∙ g.filled c r q;
            calm = g.calm;
          })
          (Fine-plain t refl (λ c r p. cc) (λ p. cc)
            (λ c p. subst (In (job.key, c)) (sym same) (inl (cc))))
          (λ a p. inr (λ j q. cc (free j, q))) (λ c p. absurd (cc))

    pub claim-Sound : Sound lru capacity (update lru s i (claim lru job s.storage))
    claim-Sound =
        let (v, gone, slot, pushed, f) =
          inserted-Front lru job.key s.storage h.orphans h.books h.roomy h.bounded in
        elim (claim-cases job s.storage v gone slot pushed) [
          | inl fresh ↦
              subst (λ x. Sound lru capacity (update lru s i x)) (sym fresh)
                (Front-Sound v gone _ f)
          | inr stale ↦
              subst (λ x. Sound lru capacity (update lru s i x)) (sym stale)
                (Front-Sound (s.storage.next_cell + 1) ((job.key, v) ∷ gone) _
                  (Front-renewed lru job.key v gone h.orphans s.storage _ f))
        ]
