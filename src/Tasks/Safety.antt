-- ===== src/Tasks/Safety.antt =====
-- src/cache.rs, `Cache::get` for many requests: what all runs of the tasks have in common.
use server.Cache.Claim.{IsValid}
use server.Cache.Invariant.{Books}
use server.Cache.{CachedResource, CachedResourceKey, CachedResourceKey-discrete}
use server.Lru.{LruCache}
use server.Pool.{u64_mod}
use server.Prelude.{
  ℕ, ◌<◌, ◌≡◌, ◌≢◌, refl, sym, ap, ◌∙◌, subst, inl, inr, none, some, List, [], ◌∷◌, ◌++◌,
  append-nil, ok,
}
use server.Tasks.Claims.{claim-Sound}
use server.Tasks.Defs.{
  Task, System, idle, responding, panicked, has_lock, permit, cell_of, Among, Holds,
}
use server.Tasks.Drops.{drops_one-Sound, drops_last-Sound}
use server.Tasks.Invariant.{In, Unique, Sound, entries}
use server.Tasks.Quiet.{
  Fine-plain, begin-Sound, unlocks-Sound, cancels_lock-Sound, leaves-Sound, finds-Sound,
  inits-Sound, fetches-Sound, counted-CountsOnly, same_storage,
}
use server.Tasks.Steps.{
  Step, begin, claims, unlocks, finds, inits, fetches, reserves, evicts, takes, responds,
  cancels_lock, cancels, drops_one, drops_last, Reach, Referenced, here, next, AllIdle,
}
use server.Tasks.Stores.{pop-Sound, take_all-Sound, try_reserve-Sound}

pub not_held : (t : Task) (c : ℕ) → t.phase ≡ idle → t.drops ≡ [] → ¬ Holds t c
not_held t c e nil (inl p) = cc (ap cell_of e, p)
not_held t c e nil (inr m) = absurd (subst (Among c) nil m)

no_members : (l : List (CachedResourceKey × ℕ)) → ((e : CachedResourceKey × ℕ) → ¬ In e l) → l ≡ []
no_members [] none_in = refl
no_members (e ∷ l) none_in = absurd (none_in e (inl refl))

module _ (lru : LruCache CachedResourceKey ℕ CachedResourceKey-discrete) {capacity : ℕ} where
  -- Every step keeps the invariant.
  pub Step-Sound :
      capacity < u64_mod
      → {s s' : System lru} → Step lru s s'
      → Sound lru capacity s
      → Sound lru capacity s'
  Step-Sound bounded {s} (begin i job old e is) h =
      subst (Sound lru capacity) (sym is) (begin-Sound lru s h i job old e)
  Step-Sound bounded {s} (claims i job e free is) h =
      subst (Sound lru capacity) (sym is) (claim-Sound lru s h i job e free)
  Step-Sound bounded {s} (unlocks i job c e is) h =
      subst (Sound lru capacity) (sym is) (unlocks-Sound lru s h i job c e)
  Step-Sound bounded {s} (finds i job c r e full is) h =
      subst (Sound lru capacity) (sym is) (finds-Sound lru s h i job c r e full)
  Step-Sound bounded {s} (inits i job c e empty free is) h =
      subst (Sound lru capacity) (sym is) (inits-Sound lru s h i job c e empty free)
  Step-Sound bounded {s} (fetches i job c e is) h =
      subst (Sound lru capacity) (sym is) (fetches-Sound lru s h i job c _ e)
  Step-Sound bounded {s} (reserves i job locked c headers file e is) h =
      subst (Sound lru capacity) (sym is)
        (try_reserve-Sound lru s h i job _ e c refl refl headers file locked refl)
  Step-Sound bounded {s} (evicts i job c headers file e free is) h =
      subst (Sound lru capacity) (sym is)
        (pop-Sound lru s h i job _ e c refl refl headers file (λ a. inr (λ j q. cc (free j, q))))
  Step-Sound bounded {s} (takes i job c headers file e is) h =
      subst (Sound lru capacity) (sym is)
        (take_all-Sound lru s h i job _ e c refl refl headers file)
  Step-Sound bounded {s} (responds i job c result e is) h = subst (Sound lru capacity) (sym is) (
      leaves-Sound lru s h i job (responding c result) c _ e
        (counted-CountsOnly lru s h i job result s.storage) refl)
  Step-Sound bounded {s} (cancels_lock i job e is) h =
      subst (Sound lru capacity) (sym is) (cancels_lock-Sound lru s h i job e)
  Step-Sound bounded {s} (cancels i job c phase e which is) h =
      let its : cell_of phase ≡ some c = elim which [
        | inl p ↦ ap cell_of p
        | inr rest ↦ elim rest [ inl p ↦ ap cell_of p | inr (headers, file, p) ↦ ap cell_of p ]
      ] in
      subst (Sound lru capacity) (sym is)
        (leaves-Sound lru s h i job phase c s.storage e (same_storage lru s h i) its)
  Step-Sound bounded {s} (drops_one i c rest drops is referenced) h =
      subst (Sound lru capacity) (sym is)
        (drops_one-Sound lru s h i c rest drops (subst (λ x. Referenced lru x c) is referenced))
  Step-Sound bounded {s} (drops_last i c rest drops gone is) h =
      subst (Sound lru capacity) (sym is) (drops_last-Sound lru s h i c rest drops gone bounded)

  pub Reach-Sound :
      capacity < u64_mod
      → {s s' : System lru} → Sound lru capacity s
      → Reach lru s s'
      → Sound lru capacity s'
  Reach-Sound bounded h here = h
  Reach-Sound bounded h (next r st) = Step-Sound bounded st (Reach-Sound bounded h r)

  -- Before the first request.
  pub start-Sound :
      (s : System lru) → IsValid lru capacity s.storage → AllIdle lru s → Sound lru capacity s
  start-Sound s h rest = record {
    orphans = [];
    books =
        subst (λ l. Books lru capacity none l s.storage) (sym (append-nil (entries lru s.storage)))
          h.books;
    owned = λ e m. absurd m;
    roomy = h.roomy;
    bounded = h.bounded;
    fine = λ j.
        let e = (rest j).0 in
        Fine-plain (s.tasks j) (ap permit e) (λ c r p. cc (e, p)) (λ p. cc (e, p))
          (λ c p. absurd (cc (ap cell_of e, p)));
    exclusive = λ i j a p q. absurd (cc (ap has_lock (rest i).0, p));
    single = λ i j c p q. absurd (cc (ap permit (rest i).0, p));
  }

  -- A storage that is valid before the first request, and a capacity below 2^64.
  module _ (bounded : capacity < u64_mod) (s s' : System lru)
      (valid : IsValid lru capacity s.storage) (rest : AllIdle lru s) (reach : Reach lru s s') where
    sound : Sound lru capacity s'
    sound = Reach-Sound bounded (start-Sound s valid rest) reach

    -- From a valid storage, a capacity below 2^64 and tasks at rest: whatever requests come, in
    -- whatever order their tasks go on, and whichever are cancelled where they wait: no task
    -- panics; at most one has the lock of the cache, and at most one has the permit of any cell, so
    -- that no two fetch one cell's file at once; and the file that a task answers with is still
    -- what its cell holds.
    pub Reach-IsSafe :
        ((i : ℕ) → (s'.tasks i).phase ≢ panicked)
        × Unique has_lock s'.tasks
        × Unique permit s'.tasks
        × ((i c : ℕ) (r : CachedResource)
            → (s'.tasks i).phase ≡ responding c (ok r)
            → s'.storage.cells c ≡ some r)
    Reach-IsSafe =
        let h = sound in
        (λ i. (h.fine i).calm, h.exclusive, h.single, λ i c r p. (h.fine i).filled c r p)

    -- From a valid storage, a capacity below 2^64 and tasks at rest, whatever the tasks do: when
    -- all tasks are done again, the storage is valid: nothing leaked, cancelled requests included.
    pub Reach-IsValid : AllIdle lru s' → IsValid lru capacity s'.storage
    Reach-IsValid done_all =
        let h = sound in
        let nil = no_members h.orphans (λ e m.
          let (j, held) = h.owned e m in
          not_held (s'.tasks j) e.1 (done_all j).0 (done_all j).1 held) in
        record {
          books =
              subst (λ l. Books lru capacity none l s'.storage)
                (ap (λ l. entries lru s'.storage ++ l) nil ∙ append-nil (entries lru s'.storage))
                h.books;
          roomy = h.roomy;
          bounded = h.bounded;
        }
