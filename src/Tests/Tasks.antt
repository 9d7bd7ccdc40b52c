-- ===== src/Tests/Tasks.antt =====
-- src/cache.rs, `Cache::get`: two tasks on one storage.
use mathlib.Core.List.{lookup}
use server.Cache.{CachedResource, HostMetrics, new_cache}
use server.Cache.Claim.{IsValid}
use server.Cache.Fill.{fetched}
use server.Cache.{is_stale, emit, holds_cell}
use server.Lru.{slot, touched, pushed_out}
use server.Metrics.{new_route_metrics, CacheRouteMetrics}
use server.Pool.{u64_mod, reserve}
use server.Prelude.{
  ◌⊎◌, ℕ, ◌<◌, ◌≤◌, ◌≡◌, ◌≢◌, refl, ap, subst, inl, none, some, List, [], ◌∷◌, true, false, ◌∙◌,
  ℕ_discrete, arith, ok,
}
use server.Tasks.{
  Job, Phase, Task, System, has_lock, permit, idle, wants_lock, claimed, waiting, fetching,
  reserving, responding, panicked,
}
use server.Tasks.Invariant.{Unique, set_task-all, set_task_other}
use server.Tasks.Origin.{Origin, Reach-Origin}
use server.Tasks.Progress.{GoesOn, goes_on, Reach-GoesOn}
use server.Tasks.Settle.{Settles, Works, Reach-Settles}
use server.Tasks.Measure.{work_left}
use server.Tasks.Search.{IsQuiet}
use server.Tasks.Safety.{Reach-IsSafe, Reach-IsValid}
use server.Tasks.{
  Reach, LockFree, PermitFree, AllIdle, here, next, begin, claims, unlocks, inits, fetches,
  reserves, responds, drops_one, cancels_lock, at_phase, update, claim, fetched_phase, try_reserve,
  store, counted, new_resource,
}
use server.Setup.{empty_storage}
use server.Tests.World.{exact_tree, list_lru, routes, storage, storage-IsValid, world}

pub small : 10 < u64_mod
small = omega arith

unfoldable pub metrics : CacheRouteMetrics
unfolding new_route_metrics
metrics = new_route_metrics "host" "/a"

abbrev pub handles : HostMetrics
unfolding new_cache
handles = (new_cache exact_tree "host" routes).handles

abbrev pub job : Job
job = record {
  key = record { host = "host"; path = "/a" };
  now = 5;
  expires_after = some 65;
  handles = handles;
  route_metrics = metrics;
  outside = world;
}

abbrev pub at_rest : System list_lru
at_rest = record { storage = storage; tasks = λ i. at_phase job idle }

pub at_rest-AllIdle : AllIdle list_lru at_rest
at_rest-AllIdle i = (refl, refl)

-- The run: task 0 fetches "/a", while task 1 asks for it and is cancelled.
abbrev pub after : System list_lru → ℕ → Phase → System list_lru
after s i phase = update list_lru s i (at_phase job phase, s.storage)

abbrev pub asked : System list_lru
asked = after at_rest 0 wants_lock

abbrev pub both : System list_lru
both = after asked 1 wants_lock

unfoldable pub has_claimed : System list_lru
unfolding claim
has_claimed = update list_lru both 0 (claim list_lru job both.storage)

abbrev pub unlocked : System list_lru
unlocked = after has_claimed 0 (waiting 0)

abbrev pub busy : System list_lru
busy = after unlocked 0 (fetching 0)

abbrev pub file : List ℕ
file = 1 ∷ 2 ∷ 3 ∷ []

abbrev pub loaded : System list_lru
loaded = after busy 0 (reserving false 0 (record { content_type = some "text/plain" }) file)

unfoldable pub stored : System list_lru
unfolding try_reserve
stored = update list_lru loaded 0 (
    try_reserve list_lru job false 0 (record { content_type = some "text/plain" }) file
      loaded.storage)

unfoldable pub to_both : Reach list_lru at_rest both
unfolding ℕ_discrete
to_both = next (next here (begin 0 job job refl refl)) (begin 1 job job refl refl)

pub free : LockFree list_lru both
free j =
    set_task-all asked.tasks 1 (at_phase job wants_lock) (λ t. has_lock t.phase ≡ none) refl
      (λ k p.
        set_task-all at_rest.tasks 0 (at_phase job wants_lock) (λ t. has_lock t.phase ≡ none) refl
          (λ l q. refl) k)
      j

unfoldable pub to_claimed : Reach list_lru at_rest has_claimed
unfolding has_claimed ℕ_discrete
to_claimed = next to_both (claims 0 job refl free refl)

pub claimed_first : has_claimed.tasks 0 ≡ at_phase job (claimed 0)
unfolding has_claimed ℕ_discrete claim list_lru is_stale slot pushed_out empty_storage lookup
claimed_first = refl

unfoldable pub to_unlocked : Reach list_lru at_rest unlocked
to_unlocked = next to_claimed (unlocks 0 job 0 claimed_first refl)

pub blank : unlocked.storage.cells 0 ≡ none
unfolding has_claimed claim list_lru is_stale slot pushed_out empty_storage lookup
blank = refl

no_permit : (j : ℕ) → permit (both.tasks j).phase ≢ some 0
no_permit j =
    set_task-all asked.tasks 1 (at_phase job wants_lock) (λ t. permit t.phase ≢ some 0)
      (λ e. cc (e))
      (λ k p.
        set_task-all at_rest.tasks 0 (at_phase job wants_lock) (λ t. permit t.phase ≢ some 0)
          (λ e. cc (e)) (λ l q e. cc (e)) k)
      j

pub no_permit_yet : PermitFree list_lru unlocked 0
unfolding has_claimed
no_permit_yet j =
    set_task-all has_claimed.tasks 0 (at_phase job (waiting 0)) (λ t. permit t.phase ≢ some 0)
      (λ e. cc (e))
      (λ k p e.
        no_permit k
          (subst (λ (t : Task). permit t.phase ≡ some 0) (set_task_other both.tasks 0 _ k p) e))
      j

unfoldable pub to_busy : Reach list_lru at_rest busy
unfolding ℕ_discrete
to_busy = next to_unlocked (inits 0 job 0 refl blank no_permit_yet refl)

unfoldable pub to_loaded : Reach list_lru at_rest loaded
unfolding ℕ_discrete fetched_phase fetched
to_loaded = next to_busy (fetches 0 job 0 refl refl)

unfoldable pub to_stored : Reach list_lru at_rest stored
unfolding ℕ_discrete stored
to_stored = next to_loaded (reserves 0 job false 0 _ file refl refl)

abbrev pub resource : CachedResource
resource =
    new_resource job (record { content_type = some "text/plain" }) file (record { reserved = 3 })

pub stored_first : stored.tasks 0 ≡ at_phase job (responding 0 (ok resource))
unfolding stored try_reserve store reserve has_claimed claim list_lru is_stale slot pushed_out
    empty_storage lookup ℕ_discrete
stored_first = refl

pub held : holds_cell (list_lru.entries stored.storage.cached_resources) 0 ≡ true
unfolding stored try_reserve store reserve has_claimed claim list_lru is_stale slot touched
    pushed_out empty_storage lookup ℕ_discrete holds_cell emit
held = refl

pub second : stored.tasks 1 ≡ at_phase job wants_lock
unfolding stored has_claimed ℕ_discrete
second = refl

-- Task 0 answers, and lets go of the cell, which the cache has; task 1 is cancelled.
abbrev pub answered : System list_lru
answered = update list_lru stored 0 (
  record { job = job; phase = idle; drops = 0 ∷ [] },
  counted list_lru job (ok resource) stored.storage,
)

abbrev pub let_go : System list_lru
let_go = update list_lru answered 0 (at_phase job idle, answered.storage)

abbrev pub cancelled : System list_lru
cancelled = after let_go 1 idle

unfoldable pub to_cancelled : Reach list_lru at_rest cancelled
unfolding ℕ_discrete counted emit
to_cancelled =
    next
      (next (next to_stored (responds 0 job 0 (ok resource) stored_first refl))
        (drops_one 0 0 [] refl refl (inl held)))
      (cancels_lock 1 job second refl)

others : (j : ℕ) → 0 ≢ j → 1 ≢ j → stored.tasks j ≡ at_phase job idle
unfolding stored has_claimed
others j p q =
    set_task_other loaded.tasks 0 _ j p
    ∙ set_task_other busy.tasks 0 _ j p
    ∙ set_task_other unlocked.tasks 0 _ j p
    ∙ set_task_other has_claimed.tasks 0 _ j p
    ∙ set_task_other both.tasks 0 _ j p
    ∙ set_task_other asked.tasks 1 _ j q
    ∙ set_task_other at_rest.tasks 0 _ j p

cancelled-AllIdle : AllIdle list_lru cancelled
unfolding ℕ_discrete
cancelled-AllIdle =
    set_task-all let_go.tasks 1 (at_phase job idle) (λ t. (t.phase ≡ idle) × (t.drops ≡ []))
      (refl, refl)
      λ k q. elim (ℕ_discrete 0 k) [
        | yes p ↦
            subst (λ n. ((let_go.tasks n).phase ≡ idle) × ((let_go.tasks n).drops ≡ [])) p
              (refl, refl)
        | no p ↦
            let is =
              set_task_other answered.tasks 0 (at_phase job idle) k p
              ∙ set_task_other stored.tasks 0 (record { job = job; phase = idle; drops = 0 ∷ [] }) k
                  p
              ∙ others k p q in
            (ap (λ (t : Task). t.phase) is, ap (λ (t : Task). t.drops) is)
      ]

Reach-IsSafe_example :
    ((i : ℕ) → (stored.tasks i).phase ≢ panicked)
    × Unique has_lock stored.tasks
    × Unique permit stored.tasks
    × ((i c : ℕ) (r : CachedResource)
        → (stored.tasks i).phase ≡ responding c (ok r)
        → stored.storage.cells c ≡ some r)
Reach-IsSafe_example =
    Reach-IsSafe list_lru small at_rest stored storage-IsValid at_rest-AllIdle to_stored

Reach-IsValid_example : IsValid list_lru 10 cancelled.storage
Reach-IsValid_example =
    Reach-IsValid list_lru small at_rest cancelled storage-IsValid at_rest-AllIdle to_cancelled
      cancelled-AllIdle

Reach-GoesOn_example : GoesOn list_lru stored ⊎ AllIdle list_lru stored
Reach-GoesOn_example =
    Reach-GoesOn list_lru at_rest stored small storage-IsValid at_rest-AllIdle to_stored

Reach-Origin_example :
    Origin list_lru at_rest to_stored (stored.tasks 0).job.key resource.headers resource.file
Reach-Origin_example =
    Reach-Origin list_lru at_rest stored small storage-IsValid at_rest-AllIdle to_stored 0 0
      resource (ap (λ (t : Task). t.phase) stored_first)

stored-IsQuiet : (j : ℕ) → 2 ≤ j → IsQuiet (stored.tasks j)
stored-IsQuiet j le =
    let is = others j (λ e. absurd (omega (arith, le, e))) (λ e. absurd (omega (arith, le, e))) in
    (ap (λ (t : Task). t.phase) is, ap (λ (t : Task). t.drops) is)

-- One step more: task 0 answers.
to_answered : Works list_lru 1 stored answered
unfolding goes_on
to_answered = (answered, responds 0 job 0 (ok resource) stored_first refl, refl, refl)

Reach-Settles_example : (1 ≤ work_left list_lru 2 stored) × Settles list_lru 10 answered
Reach-Settles_example =
    Reach-Settles list_lru at_rest stored small storage-IsValid at_rest-AllIdle to_stored 2 1
      answered stored-IsQuiet to_answered
