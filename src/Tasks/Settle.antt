-- ===== src/Tasks/Settle.antt =====
-- src/cache.rs, `Cache::get` for many requests: how many steps the tasks can take.
use server.Cache.{CachedResourceKey, CachedResourceKey-discrete}
use server.Cache.Claim.{IsValid}
use server.Lru.{LruCache}
use server.Pool.{u64_mod}
use server.Prelude.{zero, suc, ℕ, ◌+◌, ◌<◌, ◌≤◌, ◌≡◌, refl, ap, subst, inl, inr, true, arith}
use server.Tasks.Defs.{System}
use server.Tasks.Measure.{work_left, Step-work_left}
use server.Tasks.Progress.{goes_on, Reach-GoesOn, Reach-IsFinite}
use server.Tasks.Safety.{Reach-IsValid}
use server.Tasks.Search.{IsQuiet}
use server.Tasks.Steps.{Step, Reach, next, AllIdle}

module _ (lru : LruCache CachedResourceKey ℕ CachedResourceKey-discrete) where
  -- A run of so many steps that all go on with a request.
  abbrev pub Works : ℕ → System lru → System lru → Type 0
  Works zero s s' = s ≡ s'
  Works (suc k) s s' =
      (t : System lru) × (st : Step lru s t) × (goes_on lru st ≡ true) × Works k t s'

  Works-work_left :
      (n k : ℕ) (s s' : System lru)
      → ((j : ℕ) → n ≤ j → IsQuiet (s.tasks j))
      → Works k s s'
      → k + work_left lru n s' ≤ work_left lru n s
  Works-work_left n zero s s' quiet same = omega (arith, ap (work_left lru n) same)
  Works-work_left n (suc k) s s' quiet (t, st, works, rest) =
      let (less, quiet') = Step-work_left lru n st works quiet in
      omega (arith, less, Works-work_left n k t s' quiet' rest)

  -- As many steps as there is work left are enough.
  settles :
      {capacity : ℕ} (n fuel : ℕ) (s s' : System lru)
      → capacity < u64_mod
      → IsValid lru capacity s.storage
      → AllIdle lru s
      → Reach lru s s'
      → ((j : ℕ) → n ≤ j → IsQuiet (s'.tasks j))
      → work_left lru n s' ≤ fuel
      → (k : ℕ) × (t : System lru) × Works k s' t × AllIdle lru t × IsValid lru capacity t.storage
  settles n zero s s' bounded valid rest reach quiet enough =
      elim (Reach-GoesOn lru s s' bounded valid rest reach) [
        | inr done_all ↦
            (0, s', refl, done_all, Reach-IsValid lru bounded s s' valid rest reach done_all)
        | inl (t, st, works) ↦
            absurd (omega (arith, enough, (Step-work_left lru n st works quiet).0))
      ]
  settles n (suc fuel) s s' bounded valid rest reach quiet enough =
      elim (Reach-GoesOn lru s s' bounded valid rest reach) [
        | inr done_all ↦
            (0, s', refl, done_all, Reach-IsValid lru bounded s s' valid rest reach done_all)
        | inl (t, st, works) ↦
            let (less, quiet') = Step-work_left lru n st works quiet in
            let (k, u, run, done_all, valid') =
              settles n fuel s t bounded valid rest (next reach st) quiet'
                (omega (arith, enough, less)) in
            (suc k, u, (t, st, works, run), done_all, valid')
      ]

  Works-Reach : (k : ℕ) (s s' t : System lru) → Reach lru s s' → Works k s' t → Reach lru s t
  Works-Reach zero s s' t reach same = subst (Reach lru s) same reach
  Works-Reach (suc k) s s' t reach (u, st, works, run) = Works-Reach k s u t (next reach st) run

  -- Steps that go on lead to a system at rest, on a valid storage.
  abbrev pub Settles : ℕ → System lru → Type 0
  Settles capacity s =
      (k : ℕ) × (t : System lru) × Works k s t × AllIdle lru t × IsValid lru capacity t.storage

  -- From a valid storage, a capacity below 2^64 and tasks at rest, whatever happened so far: if
  -- from then on no request comes and none is cancelled, and all tasks from the number n on are at
  -- rest, then the tasks have taken no more steps than the work that was left to them, however
  -- they were scheduled, and more such steps lead to a system at rest on a valid storage.
  pub Reach-Settles :
      {capacity : ℕ} (s s' : System lru)
      → capacity < u64_mod
      → IsValid lru capacity s.storage
      → AllIdle lru s
      → Reach lru s s'
      → (n k : ℕ) (t : System lru) → ((j : ℕ) → n ≤ j → IsQuiet (s'.tasks j))
      → Works k s' t
      → (k ≤ work_left lru n s') × Settles capacity t
  Reach-Settles s s' bounded valid rest reach n k t quiet run =
      let reach' = Works-Reach k s s' t reach run in
      let (m, quiet') = Reach-IsFinite lru reach' (0, λ j le. rest j) in
      (
        omega (arith, Works-work_left n k s' t quiet run),
        settles m (work_left lru m t) s t bounded valid rest reach' quiet' (omega arith),
      )
