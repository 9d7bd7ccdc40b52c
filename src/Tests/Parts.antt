-- ===== src/Tests/Parts.antt =====
-- src/cache.rs, src/app.rs and src/upstream/: the parts by themselves.
use Prim.Native.String.{◌++◌}
use server.App.Hosts.{HasNoColon, hostname-port}
use server.App.{AppState, Headers, Request, get_resource, hostname}
use server.Main.Labels.{request_labels-port}
use server.Main.{request_labels}
use server.Cache.{Cache, index, new_cache}
use server.Config.{RouteConfig, default_cache_config, seconds, duration}
use server.Pool.Atomic.{reserves, returns, apply, pending, enter, step-linearizes, call_alone}
use server.Pool.Conserve.{total_held, run-conserves}
use server.Pool.Threads.{
  Action, call_reserve, call_reserve_up_to, drop_reservation, work, panicked, reserve_swap, run,
  start, step,
}
use server.Prelude.{
  ℕ, ◌+◌, ◌≡◌, ◌≢◌, ◌⊎◌, refl, String, Option, All, none, some, List, [], ◌∷◌, arith, true, false,
  ok, err, done, pos, negsuc, map,
}
use server.Routes.Ages.{Grants, asked, max_age_from-Grants}
use server.Routes.Matching.{Explained, IsTied, from_config-Explained}
use server.Routes.{CacheMaxAgeRule, CacheRoutes, from_config, match_route, max_age_from}
use server.Setup.Valid.{Increases, Made, new_storage-Made}
use server.Setup.{Limits, new_storage}
use server.Tests.World.{config, exact_tree, list_lru, option_cell, resource, routes, storage, world}
use server.Upstream.Fallthrough.{
  combined, fallthrough_get, fallthrough_get-combined, first_failed, first_found,
}
use server.Upstream.Paths.{get-slashed, s3_get-empty_key, slashed}
use server.Upstream.Sources.{HttpUpstream, S3Upstream, http_get, no_such_key, s3_get}
use server.Upstream.{Upstream, io}

-- Two threads meet between a load and its `compare_exchange`.
abbrev schedule : List (ℕ × Action)
schedule =
    (0, call_reserve 4)
    ∷ (1, call_reserve_up_to 9)
    ∷ (0, work)
    ∷ (1, work)
    ∷ (0, work)
    ∷ (1, work)
    ∷ (1, work)
    ∷ (0, drop_reservation)
    ∷ []

run-conserves_example :
    ((run schedule (start 10 2)).counter + total_held (run schedule (start 10 2)).threads ≡ 10)
    × All (λ p. p ≢ panicked) (run schedule (start 10 2)).threads
run-conserves_example = run-conserves 10 2 schedule (omega arith)

step-linearizes_example :
    ((pending (step (reserve_swap 4 10 6) 9).0 ≡ some (reserves 4))
      × ((step (reserve_swap 4 10 6) 9).1 ≡ 9))
    ⊎ (step (reserve_swap 4 10 6) 9 ≡ apply (reserves 4) 9)
step-linearizes_example = step-linearizes (reserve_swap 4 10 6) 9 (reserves 4) refl refl

call_alone_example :
    step (step (enter (returns 4)) 6).0 (step (enter (returns 4)) 6).1 ≡ apply (returns 4) 6
call_alone_example = call_alone (returns 4) 6

abbrev limits : Limits
limits = record { getrlimit = ok (4, 100); increase_nofile_limit = λ n. ok n }

limits-increase : Increases list_lru limits
limits-increase soft hard n m got within e = ground (arith, e)

new_storage-Made_example : Made list_lru config (new_storage list_lru limits config)
new_storage-Made_example =
    new_storage-Made list_lru limits config limits-increase refl (omega arith)

abbrev configured : List (String × RouteConfig)
configured = ("/a", RouteConfig.enabled (record { max_age = seconds (pos 60) })) ∷ []

from_config-Explained_example :
    (table : CacheRoutes exact_tree) × (from_config exact_tree default_cache_config configured
      ≡ done table)
    × IsTied exact_tree table
    × ((path : String)
        → Explained exact_tree default_cache_config configured table
            (match_route exact_tree table path))
from_config-Explained_example = from_config-Explained exact_tree default_cache_config configured

max_age_from-Grants_example :
    (r : CacheMaxAgeRule) × (max_age_from (duration (negsuc 4)) ≡ done r)
    × Grants r (asked (duration (negsuc 4)))
max_age_from-Grants_example = max_age_from-Grants (duration (negsuc 4))

-- One fails, the next has nothing, the last has the resource.
abbrev upstreams : List Upstream
upstreams = (λ path. err (io "down")) ∷ (λ path. ok none) ∷ (λ path. ok (some resource)) ∷ []

fallthrough_get-combined_example :
    fallthrough_get upstreams "/a"
    ≡ combined
        (first_found (map (λ u. u "/a") upstreams))
        (first_failed (map (λ u. u "/a") upstreams))
fallthrough_get-combined_example = fallthrough_get-combined upstreams "/a"

abbrev bucket : S3Upstream
bucket = record {
  s3 = λ bucket key. err no_such_key;
  header_value = λ text. some text;
  bucket = "files";
  prefix = "";
}

abbrev site : HttpUpstream
site = record {
  join = λ path. ok ("http://example.com/" ++ path);
  send =
      λ url. ok (record { status = 200; content_type = none; content_length = none; frames = [] });
  error_for_status = λ status. none;
  parse = λ text. none;
}

get-slashed_example :
    (s3_get bucket (slashed 2 "/a") ≡ s3_get bucket "/a")
    × (http_get site (slashed 2 "/a") ≡ http_get site "/a")
get-slashed_example = get-slashed bucket site 2 "/a"

s3_get-empty_key_example : s3_get bucket (slashed 2 "") ≡ ok none
s3_get-empty_key_example = s3_get-empty_key bucket 2 refl

port : HasNoColon "8080"
port = (refl, (refl, (refl, (refl, tt))))

hostname-port_example :
    (hostname ("example.com" ++ String.◌∷◌ ":" "8080") ≡ "example.com")
    × (HasNoColon "example.com" → hostname "example.com" ≡ "example.com")
hostname-port_example = hostname-port "example.com" "8080" port

abbrev cache : Cache exact_tree
cache = new_cache exact_tree "example.com" routes

abbrev state : AppState exact_tree
state = record {
  upstream = none;
  host_upstreams = ("example.com", cache) ∷ [];
  metadata = record { cache_outcome = true; expires_at = false; node_name = none };
}

known : index state.host_upstreams "example.com" ≡ some cache
unfolding index
known = refl

unknown : index state.host_upstreams ("example.com" ++ String.◌∷◌ ":" "8080") ≡ none
unfolding index
unknown = refl

plain : HasNoColon "example.com"
plain = (refl, (refl, (refl, (refl, (refl, (refl, (refl, (refl, (refl, (refl, (refl, tt)))))))))))

abbrev with_host : List (Option String) → Request
with_host values = record { host_values = values; path = "/a" }

abbrev headers : Headers
headers = record { from_str = λ text. some text; timestamp_to_string = λ t. "1970-01-01" }

request_labels-port_example :
    (get_resource exact_tree list_lru option_cell headers state
        (with_host (some ("example.com" ++ String.◌∷◌ ":" "8080") ∷ []))
        world
        5
        storage
      ≡ get_resource exact_tree list_lru option_cell headers state
          (with_host (some "example.com" ∷ []))
          world
          5
          storage)
    × (request_labels exact_tree state
          (with_host (some ("example.com" ++ String.◌∷◌ ":" "8080") ∷ []))
          "GET"
          "200"
        ≡ request_labels exact_tree state (with_host []) "GET" "200")
    × (path : String) × (request_labels exact_tree state
          (with_host (some "example.com" ∷ []))
          "GET"
          "200"
        ≡ ("host", "example.com") ∷ ("path", path) ∷ ("method", "GET") ∷ ("status", "200") ∷ [])
request_labels-port_example =
    request_labels-port exact_tree list_lru option_cell headers state (with_host []) world 5 storage
      "example.com" "8080" "GET" "200" cache plain port known unknown
