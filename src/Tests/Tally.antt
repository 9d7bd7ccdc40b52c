-- ===== src/Tests/Tally.antt =====
-- src/cache.rs, `Cache::get`: what a miss adds to the counters, when another request is cancelled.
use server.Prelude.{Option, none}
use server.Tasks.Credits.{IsNamed}
use server.Tasks.{Job, System, Reach}
use server.Tasks.Origin.{Began}
use server.Tests.World.{list_lru}

abbrev AllNamed : {s s' : System list_lru} → Reach list_lru s s' → Type 0
AllNamed reach = (j : Job) → Began list_lru reach j → IsNamed j

abbrev no_job : Option Job
no_job = none
