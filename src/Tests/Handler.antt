-- ===== src/Tests/Handler.antt =====
-- src/app.rs and src/cache.rs: a request to a small server, and the body of a cached file.
use server.App.Metadata.{
  add_metadata-header, expires_value, header, node_value, outcome_value, when,
}
use server.App.Told.{Handled, handle-Handled}
use server.App.Served.{AreMade, ClockAdds, Served}
use server.App.{
  AppState, Headers, add_metadata, into_response, HttpResponse, Request, cache_for_host, host,
  hostname, map_option, JsonError, handle,
}
use server.Cache.Body.{body_from_cached_resource, with_exact}
use server.Cache.Claim.{IsValid}
use server.Cache.Sent.{Adds}
use server.Routes.{match_route}
use server.Cache.Stream.{Reads, body_from_cached_resource-delivered, delivered}
use server.Cache.{Cache, CachedResourceResponse, miss, CacheStorage, index, new_cache}
use server.Prelude.{
  ℕ, ◌≡◌, refl, sym, subst, Option, String, none, some, List, [], ◌∷◌, append-nil, drop, length,
  arith, true, ok, done,
}
use server.Tests.World.{
  exact_tree, list_lru, old_file, option_cell, resource, routes, routes-IsTied, world-Adds, storage,
  storage-IsValid, world,
}
use server.Upstream.{Body}

abbrev state : AppState exact_tree
state = record {
  upstream = some (new_cache exact_tree "host" routes);
  host_upstreams = [];
  metadata = record { cache_outcome = true; expires_at = true; node_name = some "node" };
}

abbrev headers : Headers
headers = record { from_str = λ text. some text; timestamp_to_string = λ t. "1970-01-01" }

abbrev request : Request
request = record { host_values = some "example.com:8080" ∷ []; path = "/a" }

state-AreMade : AreMade exact_tree state
unfolding cache_for_host index
state-AreMade none cache e = ("host", routes, cc, routes-IsTied)
state-AreMade (some name) cache e = ("host", routes, cc, routes-IsTied)

state-is :
    (name : Option String) (cache : Cache exact_tree)
    → cache_for_host exact_tree state name ≡ some cache
    → new_cache exact_tree "host" routes ≡ cache
unfolding cache_for_host index
state-is none cache found = cc (found)
state-is (some name) cache found = cc (found)

state-ClockAdds : ClockAdds exact_tree world 5 state request
unfolding new_cache
state-ClockAdds value cache e found =
    subst (λ c. Adds world 5 (match_route exact_tree c.rules "/a").0)
      (state-is (map_option hostname value) cache found) world-Adds

length-zero : (xs : List ℕ) → length xs ≡ 0 → xs ≡ []
length-zero [] e = refl
length-zero (x ∷ xs) e = absurd (omega (arith, e))

world-Reads : Reads world.read_at
world-Reads file offset = (
  drop offset file,
  [],
  refl,
  sym (append-nil (drop offset file)),
  length-zero (drop offset file),
)

body_from_cached_resource-delivered_example :
    (body : Body) × (body_from_cached_resource world old_file ≡ ok body)
    × (delivered body.frames ≡ some old_file.file)
    × (body.size_hint ≡ with_exact old_file.size)
body_from_cached_resource-delivered_example =
    body_from_cached_resource-delivered world old_file refl world-Reads (omega arith)

abbrev found : CachedResourceResponse
found = record { resource = resource; outcome = miss; expires_at = none }

add_metadata-header_example :
    ((add_metadata headers state.metadata found (into_response found.resource)).status ≡ 200)
    × ((add_metadata headers state.metadata found (into_response found.resource)).body
        ≡ found.resource.body)
    × (header "content-type"
          (add_metadata headers state.metadata found (into_response found.resource)).headers
        ≡ found.resource.headers.content_type)
    × (header "server3-cache-outcome"
          (add_metadata headers state.metadata found (into_response found.resource)).headers
        ≡ when state.metadata.cache_outcome (outcome_value headers state.metadata found))
    × (header "server3-expires-at"
          (add_metadata headers state.metadata found (into_response found.resource)).headers
        ≡ when state.metadata.expires_at (expires_value headers state.metadata found))
    × (header "server3-node-name"
          (add_metadata headers state.metadata found (into_response found.resource)).headers
        ≡ node_value headers state.metadata found)
add_metadata-header_example = add_metadata-header headers state.metadata found

abbrev json : JsonError → HttpResponse
json error = record {
  status = 200;
  headers = ("content-type", "application/json") ∷ [];
  body = record { frames = []; size_hint = record { lower = 0; upper = none } };
}

handle-Handled_example :
    (response : HttpResponse) × (s' : CacheStorage list_lru) × (handle json exact_tree list_lru
        option_cell headers state request world 5 storage
      ≡ done (response, s'))
    × IsValid list_lru 10 s'
    × Handled json exact_tree list_lru option_cell headers world 5 10 state request
        (host request.host_values)
        response
        storage
        s'
handle-Handled_example =
    handle-Handled json exact_tree list_lru option_cell headers world 5 10 state request storage
      (omega arith) state-ClockAdds state-AreMade storage-IsValid
