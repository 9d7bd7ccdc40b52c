-- ===== src/Tests/World.antt =====
-- Libraries made of lists, and a small configuration, for the tests.
use text.Mathlib.Text.{◌==◌ as str_eq}
use server.Cache.Claim.{IsValid}
use server.Cache.Invariant.{Books, reserved_in, counts_for}
use server.Cache.Totals.{total-cons, total-empty}
use server.Cache.{
  CacheStorage, CachedResourceKey, CachedResourceKey-discrete, CachedResource, Outside,
}
use server.Config.{StorageConfig}
use server.Lru.{LruCache, OnceCell, get_last?, drop_last, slot, touched, pushed_out, overwritten}
use server.Metrics.{
  Counter, CounterName, Gauge, GaugeName, disk_file_count, disk_bytes, eviction_count,
  eviction_bytes, raise, raised, lowered,
}
use server.Prelude.{
  zero, suc, ℕ, ◌+◌, ◌<◌, ◌≡◌, ◌≢◌, ◌⊎◌, refl, ap, String, Option, none, some, List, [], ◌∷◌, drop,
  length, arith, if◌then◌else◌, Result, ok, err, Run, done, panic, stuck,
}
use server.Cache.Sent.{Adds}
use server.Routes.Matching.{IsTied, new_routes-IsTied, add_route-IsTied}
use server.Routes.{
  PathTree, CacheRoutes, CacheRouteRule, enabled, cache_for, cache_forever, new_routes, add_route,
  match_route,
}
use server.Setup.Valid.{empty_storage-IsValid}
use server.Setup.{empty_storage}
use server.Upstream.{UpstreamResource}

unfoldable pub list_lru : LruCache CachedResourceKey ℕ CachedResourceKey-discrete
unfolding get_last? drop_last slot touched pushed_out overwritten CachedResourceKey-discrete
list_lru = record {
  State = ℕ × List (CachedResourceKey × ℕ);
  new = λ n. (n, []);
  get_or_insert_mut_ref = λ k v s. (
    slot CachedResourceKey-discrete k v s.1,
    pushed_out CachedResourceKey-discrete k s.0 s.1,
    (s.0, touched CachedResourceKey-discrete k v s.0 s.1),
  );
  assign = λ k v s. (s.0, overwritten CachedResourceKey-discrete k v s.1);
  pop_lru = λ s. (get_last? s.1, (s.0, drop_last s.1));
  entries = λ s. s.1;
  cap = λ s. s.0;
  new_lem = λ n. (refl, refl);
  get_or_insert_lem = λ k v s. (refl, refl, refl, refl);
  assign_lem = λ k v s. (refl, refl);
  pop_lru_lem = λ s. (refl, refl, refl);
}

abbrev settled : {E A S : Type 0} → Run (Result E A × S) → Run (Result E A × Option A × S)
settled (done (ok a, s)) = done (ok a, some a, s)
settled (done (err e, s)) = done (err e, none, s)
settled panic = panic
settled stuck = stuck

abbrev init :
    {E A S : Type 0} → Option A → (S → Run (Result E A × S)) → S → Run (Result E A × Option A × S)
init (some a) f s = done (ok a, some a, s)
init none f s = settled (f s)

abbrev pub option_cell : OnceCell
option_cell = record {
  get_or_try_init = λ o f s. init o f s;
  init_filled = λ a f s. refl;
  init_ok = λ f s a s' e. ap settled e;
  init_err = λ f s e s' p. ap settled p;
}

abbrev find : {V : Type 0} → List (String × V) → String → Option V
find [] path = none
find ((p, v) ∷ rest) path = if str_eq p path then some v else find rest path

abbrev Holds : {V : Type 0} → List (String × V) → V → Type 0
Holds [] v = ⊥
Holds ((p, w) ∷ rest) v = (v ≡ w) ⊎ Holds rest v

pub find-Holds :
    {V : Type 0} (t : List (String × V)) (path : String) (v : V) → find t path ≡ some v → Holds t v
find-Holds [] path v e = absurd (cc)
find-Holds ((p, w) ∷ rest) path v e = ground (arith, e, find-Holds rest path v)

-- Patterns without variables.
abbrev pub exact_tree : {V : Type 0} → PathTree V
exact_tree {V} = record {
  Tree = List (String × V);
  new = [];
  insert = λ path v t. (path, v) ∷ t;
  find = find;
  Holds = Holds;
  find_holds = find-Holds;
  new_holds = λ v h. h;
  insert_holds = λ path v w t h. h;
}

abbrev rules : CacheRouteRule
rules = enabled (record { max_age = cache_forever })

abbrev pub routes : CacheRoutes exact_tree
routes =
    add_route exact_tree (new_routes exact_tree rules) "/a"
      (enabled (record { max_age = cache_for 60 }))

pub routes-IsTied : IsTied exact_tree routes
routes-IsTied =
    add_route-IsTied exact_tree (new_routes exact_tree rules) "/a"
      (enabled (record { max_age = cache_for 60 })) (new_routes-IsTied exact_tree rules)

abbrev pub config : StorageConfig
config = record {
  dir = "/tmp";
  max_disk_capacity = 10;
  min_cache_files = 2;
  max_cache_files = none;
  min_non_cache_files = 3;
}

abbrev pub storage : CacheStorage list_lru
storage = empty_storage list_lru config 2

pub storage-IsValid : IsValid list_lru 10 storage
storage-IsValid = empty_storage-IsValid list_lru config 2 (omega arith)

abbrev pub resource : UpstreamResource
resource = record {
  headers = record { content_type = some "text/plain" };
  body = record {
    frames = ok (1 ∷ 2 ∷ 3 ∷ []) ∷ [];
    size_hint = record { lower = 3; upper = some 3 };
  };
}

abbrev pub world : Outside
world = record {
  upstream = λ path. ok (some resource);
  new_v4 = 7;
  instant_checked_add = λ now duration. some (now + duration);
  tempfile_in = λ dir. none;
  copy = λ body. ok (1 ∷ 2 ∷ 3 ∷ []);
  instant_now = 5;
  timestamp_now = 5;
  timestamp_checked_add = λ now duration. some (now + duration);
  try_clone = none;
  read_at = λ file offset. ok (drop offset file);
  patience = 4;
}

abbrev gauge : GaugeName → Gauge
gauge name = record { name = name; host = "host" }

abbrev counter : CounterName → Counter
counter name = record { name = name; host = "host"; path = none }

abbrev pub old_file : CachedResource
old_file = record {
  id = 1;
  headers = record { content_type = none };
  file = 4 ∷ 5 ∷ 6 ∷ [];
  size = 3;
  expires_at = none;
  expires_at_timestamp = none;
  cache_eviction_count = counter eviction_count;
  cache_eviction_bytes = counter eviction_bytes;
  cache_disk_file_count = gauge disk_file_count;
  cache_disk_bytes = gauge disk_bytes;
  reservation = record { reserved = 8 };
}

abbrev stocked_cells : ℕ → Option CachedResource
stocked_cells zero = some old_file
stocked_cells (suc c) = none

-- One file, which holds 8 of the capacity of 10.
unfoldable pub stocked : CacheStorage list_lru
unfolding list_lru
stocked = record {
  cache_dir = "/tmp";
  capacity_pool = record { available_capacity = 2 };
  cached_resources = (2, (record { host = "host"; path = "/old" }, 0) ∷ []);
  cells = stocked_cells;
  next_cell = 1;
  events = raise (gauge disk_file_count) 1 ∷ raise (gauge disk_bytes) 3 ∷ [];
}

abbrev entry : CachedResourceKey × ℕ
entry = (record { host = "host"; path = "/old" }, 0)

-- A cell that the entry does not have.
stray : (c : ℕ) → (0 ≢ c) × Unit {0} → stocked_cells c ≡ none
stray zero (other, _) = absurd (other refl)
stray (suc c) lacks = refl

pub stocked-Books : Books list_lru 10 none (list_lru.entries stocked.cached_resources) stocked
unfolding raised lowered counts_for stocked list_lru
stocked-Books = record {
  conserved = omega (
    arith,
    total-cons reserved_in stocked_cells entry [],
    total-empty {K = CachedResourceKey} reserved_in stocked_cells [] refl,
  );
  gauges = λ g. omega (
    arith,
    total-cons (counts_for g) stocked_cells entry [],
    total-empty {K = CachedResourceKey} (counts_for g) stocked_cells [] refl,
  );
  distinct = (tt, tt);
  allocated = (omega arith, tt);
  stray = stray;
}

pub stocked-length : length (list_lru.entries stocked.cached_resources) < 2
unfolding stocked list_lru
stocked-length = omega arith

-- The clock can add the age of the route of "/a".
pub world-Adds : Adds world 5 (match_route exact_tree routes "/a").0
unfolding match_route add_route
world-Adds = (5 + 60, refl)
