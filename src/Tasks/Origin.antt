-- ===== src/Tasks/Origin.antt =====
-- src/cache.rs, `Cache::get` for many requests: where the files come from that tasks answer with.
use server.Cache.Claim.{IsValid}
use server.Cache.{CachedResource, CachedResourceKey, CachedResourceKey-discrete}
use server.Lru.{LruCache}
use server.Pool.{u64_mod}
use server.Prelude.{
  ℕ, ◌<◌, ◌≡◌, ◌⊎◌, refl, sym, ap, subst, inl, inr, Option, none, some, List, [], true, ok, String,
}
use server.Tasks.Defs.{
  Job, System, idle, wants_lock, claimed, waiting, fetching, wants_eviction, responding, cell_of,
}
use server.Tasks.Honest.{is_active, file_of, Sourced, Sourced-less, IsLess-same}
use server.Tasks.Invariant.{In, Sound, entries}
use server.Tasks.Safety.{Reach-Sound, start-Sound}
use server.Tasks.Steps.{
  Step, begin, claims, unlocks, finds, inits, fetches, reserves, evicts, takes, responds,
  cancels_lock, cancels, drops_one, drops_last, Reach, here, next, AllIdle,
}
use server.Upstream.{UpstreamResourceHeaders}
use server.Tasks.Carried.{Gave, goes, begin-Sourced, claim-Sourced, pop-Sourced}
use server.Tasks.Rounds.{
  try_reserve-Sourced, take_all-Sourced, fetched-Sourced, counted-same, leaves-Sourced, same_task,
  drops_last-Sourced,
}

module _ (lru : LruCache CachedResourceKey ℕ CachedResourceKey-discrete) where
  -- What a step asks for.
  abbrev pub asks : {s s' : System lru} → Step lru s s' → Option Job
  asks (begin _ job _ _ _) = some job
  asks _ = none

  -- The requests that a run of steps has begun with.
  abbrev pub Began : {s s' : System lru} → Reach lru s s' → Job → Type 0
  Began here job = ⊥
  Began (next reach st) job = (asks st ≡ some job) ⊎ Began reach job

  module _ (Asked : Job → Type 0)
      (Good : CachedResourceKey → UpstreamResourceHeaders → List ℕ → Type 0) (dir : String)
      (gives : (job : Job) (headers : UpstreamResourceHeaders) (file : List ℕ)
        → Asked job
        → Gave dir job headers file
        → Good job.key headers file)
      {capacity : ℕ} where
    Step-Sourced :
        {s s' : System lru} (st : Step lru s s')
        → ((job : Job) → asks st ≡ some job → Asked job)
        → Sound lru capacity s
        → Sourced Asked Good lru dir s
        → Sourced Asked Good lru dir s'
    Step-Sourced {s} (begin i job old e is) asked h hs =
        subst (Sourced Asked Good lru dir) (sym is)
          (begin-Sourced lru Asked Good dir gives s h hs i job old e (asked job refl))
    Step-Sourced {s} (claims i job e free is) asked h hs =
        subst (Sourced Asked Good lru dir) (sym is)
          (claim-Sourced lru Asked Good dir gives s h hs i job e)
    Step-Sourced {s} (unlocks i job c e is) asked h hs =
        subst (Sourced Asked Good lru dir) (sym is) (
          goes lru Asked Good dir gives s h hs i job (claimed c) (waiting c) [] s.storage e refl
            (IsLess-same Asked Good lru dir s hs i) (λ d q. q) (λ hd f q. absurd (cc (q))))
    Step-Sourced {s} (finds i job c r e full is) asked h hs =
        subst (Sourced Asked Good lru dir) (sym is) (
          goes lru Asked Good dir gives s h hs i job (waiting c) (responding c (ok r)) [] s.storage
            e refl (IsLess-same Asked Good lru dir s hs i) (λ d q. q) (λ hd f q. absurd (cc (q))))
    Step-Sourced {s} (inits i job c e empty free is) asked h hs =
        subst (Sourced Asked Good lru dir) (sym is) (
          goes lru Asked Good dir gives s h hs i job (waiting c) (fetching c) [] s.storage e refl
            (IsLess-same Asked Good lru dir s hs i) (λ d q. q) (λ hd f q. absurd (cc (q))))
    Step-Sourced {s} (fetches i job c e is) asked h hs =
        subst (Sourced Asked Good lru dir) (sym is)
          (fetched-Sourced lru Asked Good dir gives s h hs i job c e)
    Step-Sourced {s} (reserves i job locked c headers file e is) asked h hs =
        subst (Sourced Asked Good lru dir) (sym is)
          (try_reserve-Sourced lru Asked Good dir gives s h hs i job locked c headers file e)
    Step-Sourced {s} (evicts i job c headers file e free is) asked h hs =
        subst (Sourced Asked Good lru dir) (sym is) (
          pop-Sourced lru Asked Good dir gives s h hs i job (wants_eviction c headers file) c
            headers file e refl refl refl)
    Step-Sourced {s} (takes i job c headers file e is) asked h hs =
        subst (Sourced Asked Good lru dir) (sym is)
          (take_all-Sourced lru Asked Good dir gives s h hs i job c headers file e)
    Step-Sourced {s} (responds i job c result e is) asked h hs =
        subst (Sourced Asked Good lru dir) (sym is) (
          leaves-Sourced lru Asked Good dir gives s h hs i job (responding c result) c _ e refl
            (counted-same lru Asked Good dir gives s h hs i job result))
    Step-Sourced {s} (cancels_lock i job e is) asked h hs =
        subst (Sourced Asked Good lru dir) (sym is) (
          goes lru Asked Good dir gives s h hs i job wants_lock idle [] s.storage e refl
            (IsLess-same Asked Good lru dir s hs i) (λ d q. absurd (cc (q)))
            (λ hd f q. absurd (cc (q))))
    Step-Sourced {s} (cancels i job c phase e which is) asked h hs =
        let busy : is_active phase ≡ true = elim which [
          | inl p ↦ ap is_active p
          | inr rest ↦ elim rest [
            | inl p ↦ ap is_active p
            | inr (headers, file, p) ↦ ap is_active p
          ]
        ] in
        subst (Sourced Asked Good lru dir) (sym is) (
          leaves-Sourced lru Asked Good dir gives s h hs i job phase c s.storage e busy
            (refl, refl, refl))
    Step-Sourced {s} (drops_one i c rest drops is referenced) asked h hs =
        subst (Sourced Asked Good lru dir) (sym is) (
          Sourced-less Asked Good lru dir s hs i _ s.storage (IsLess-same Asked Good lru dir s hs i)
            (same_task lru Asked Good dir gives s h hs i (s.tasks i).job rest))
    Step-Sourced {s} (drops_last i c rest drops gone is) asked h hs =
        subst (Sourced Asked Good lru dir) (sym is)
          (drops_last-Sourced lru Asked Good dir gives s h hs i (s.tasks i).job c rest)

  -- A file under a key that the storage had before the run.
  abbrev pub Had : System lru → CachedResourceKey → UpstreamResourceHeaders → List ℕ → Type 0
  Had s key headers file =
      (c : ℕ) × (r : CachedResource) × In (key, c) (entries lru s.storage)
      × (s.storage.cells c ≡ some r)
      × (r.headers ≡ headers)
      × (r.file ≡ file)

  -- A file that the storage had, or that the upstream gave to a request of the run for the key.
  abbrev pub Origin :
      (s : System lru) {s' : System lru}
      → Reach lru s s'
      → CachedResourceKey
      → UpstreamResourceHeaders
      → List ℕ
      → Type 0
  Origin s reach key headers file =
      Had s key headers file
      ⊎ ((job : Job) × Began reach job
          × (job.key ≡ key)
          × Gave s.storage.cache_dir job headers file)

  Sourced-later :
      {s t u : System lru} (reach : Reach lru s t) (st : Step lru t u) (x : System lru)
      → Sourced (Began reach) (Origin s reach) lru s.storage.cache_dir x
      → Sourced (Began (next reach st)) (Origin s (next reach st)) lru s.storage.cache_dir x
  Sourced-later {s} reach st x hs =
      let later : (k : CachedResourceKey) (headers : UpstreamResourceHeaders) (file : List ℕ)
          → Origin s reach k headers file
          → Origin s (next reach st) k headers file =
        λ k headers file o. elim o [
          | inl had ↦ inl had
          | inr (job, began, same, gave) ↦ inr (job, inr began, same, gave)
        ] in
      record {
        same_dir = hs.same_dir;
        stocked = λ e r m full. later e.0 r.headers r.file (hs.stocked e r m full);
        honest = λ i. record {
          asked = λ p. inr ((hs.honest i).asked p);
          shown = λ c r q full. later _ r.headers r.file ((hs.honest i).shown c r q full);
          carried = λ headers file q. later _ headers file ((hs.honest i).carried headers file q);
        };
      }

  pub Reach-Sourced :
      {capacity : ℕ} {s s' : System lru}
      → capacity < u64_mod
      → IsValid lru capacity s.storage
      → AllIdle lru s
      → (reach : Reach lru s s') → Sourced (Began reach) (Origin s reach) lru s.storage.cache_dir s'
  Reach-Sourced {s = s} bounded valid rest here = record {
    same_dir = refl;
    stocked = λ e r m full. inl (e.1, r, m, full, refl, refl);
    honest = λ i. record {
      asked = λ p. absurd (cc ((rest i).0, p));
      shown = λ c r q full. absurd (cc (ap cell_of (rest i).0, q));
      carried = λ headers file q. absurd (cc (ap file_of (rest i).0, q));
    };
  }
  Reach-Sourced {s = s} bounded valid rest (next {t} reach st) =
      Step-Sourced (Began (next reach st)) (Origin s (next reach st)) s.storage.cache_dir
        (λ job headers file began gave. inr (job, began, refl, gave)) st (λ job q. inl q)
        (Reach-Sound lru bounded (start-Sound lru s valid rest) reach)
        (Sourced-later reach st t (Reach-Sourced bounded valid rest reach))

  -- From a valid storage, a capacity below 2^64 and tasks at rest, whatever the tasks do: a task
  -- that answers with a file answers with the headers and the contents that the storage had for
  -- the key of its request at the start, or that the upstream gave to a request of the run for
  -- that key.
  pub Reach-Origin :
      {capacity : ℕ} (s s' : System lru)
      → capacity < u64_mod
      → IsValid lru capacity s.storage
      → AllIdle lru s
      → (reach : Reach lru s s') → (i c : ℕ) (r : CachedResource)
      → (s'.tasks i).phase ≡ responding c (ok r)
      → Origin s reach (s'.tasks i).job.key r.headers r.file
  Reach-Origin s s' bounded valid rest reach i c r p =
      let hs = Reach-Sourced bounded valid rest reach in
      let h = Reach-Sound lru bounded (start-Sound lru s valid rest) reach in
      (hs.honest i).shown c r (ap cell_of p) ((h.fine i).filled c r p)
