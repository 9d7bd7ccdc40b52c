-- ===== src/Tests/Start.antt =====
-- src/main.rs: the start with a small configuration.
use server.Config.{
  UpstreamHttpConfig, Config, default_cache_config, http, s3, fallthrough, nil, cons,
}
use server.Main.{Clients, new_server}
use server.Main.Ready.{Started, new_server-Started}
use server.App.{Request, AppError, HttpResponse}
use server.Cache.{Cache, index, new_cache, CacheStorage}
use server.Cache.Claim.{IsValid}
use server.Main.{Server, request_labels}
use server.Main.Labels.{IsKnown, request_labels-IsKnown}
use server.Main.Wired.{Wired}
use server.Main.Serve.{Visit, serve_all, new_server-serve_all}
use server.Main.{default_server, add_hosts, ensure_upstream, build_upstream, http_builder, new_http}
use server.Routes.{CacheRoutes, new_routes, enabled, cache_forever, from_config, match_route}
use server.Setup.{new_storage, empty_storage}
use server.Upstream.Sources.{http_get}
use server.App.{Headers, JsonError, host, hostname, map_option, cache_for_host}
use server.App.Served.{ClockAdds}
use server.Cache.Sent.{Adds}
use server.App.Told.{Handled}
use server.Main.Counted.{serve_request, labels_of, serve_request-Handled}
use server.Main.{requests_total, requests_duration}
use server.Prelude.{◌==◌, if◌then◌else◌}
use server.Tests.World.{
  storage, storage-IsValid, resource, routes, routes-IsTied, world-Adds, option_cell, world,
}
use server.Prelude.{
  ℕ, ◌≡◌, List, Option, subst, String, Result, done, length, refl, arith, none, some, [], ◌∷◌,
  false, true, ok, err,
}
use server.Setup.{Limits}
use server.Tests.World.{config, exact_tree, list_lru}
use server.Upstream.Sources.{no_such_key}

abbrev clients : Clients
clients = record {
  build = λ builder. ok (λ url.
      ok (record { status = 200; content_type = none; content_length = none; frames = [] }));
  join = λ base path. ok path;
  error_for_status = λ status. none;
  parse = λ text. none;
  s3_client = λ settings bucket key. err no_such_key;
  header_value = λ text. some text;
}

-- A host with two upstreams in order, a host with none, and no default upstream.
abbrev settings : Config
settings = record {
  bind_address = "127.0.0.1:8080";
  bind_metrics_address = "127.0.0.1:8081";
  hosts =
      (
        "files",
        record {
          upstream = some (
              fallthrough (
                cons
                  (http (record {
                    url = "http://example.com";
                    http_timeout = some 5;
                    http_read_timeout = none;
                    http_connect_timeout = none;
                  }))
                  (cons
                    (s3 (record {
                      bucket = "b";
                      prefix = "";
                      profile = none;
                      region = none;
                      endpoint_url = none;
                    }))
                    nil)));
          routes = none;
          cache = none;
        },
      )
      ∷ ("empty", record { upstream = none; routes = some []; cache = none })
      ∷ [];
  upstream = none;
  routes = [];
  cache = default_cache_config;
  storage = config;
  metadata = record { cache_outcome = true; expires_at = false; node_name = none };
}

abbrev limits : Limits
limits = record { getrlimit = ok (4, 100); increase_nofile_limit = λ n. ok n }

new_server-Started_example :
    Started exact_tree list_lru clients settings
      (new_server exact_tree list_lru limits clients settings)
new_server-Started_example =
    new_server-Started exact_tree list_lru limits clients settings
      (λ soft hard n m got within e. ground (arith, e)) refl (omega arith)

-- The server without hosts, and its routes.
abbrev default_only : Server exact_tree
default_only = record {
  state = record {
    upstream = some (new_cache exact_tree "**" routes);
    host_upstreams = [];
    metadata = settings.metadata;
  };
  upstream = some (λ path. ok (some resource));
  host_upstreams = [];
}

default_only-Wired : Wired exact_tree default_only
unfolding index
default_only-Wired = record {
  general = λ cache e. ((routes, cc (e), routes-IsTied), ((λ path. ok (some resource)), refl));
  own = λ name cache e. absurd (cc (e));
}

abbrev headers : Headers
headers = record { from_str = λ text. some text; timestamp_to_string = λ t. "1970-01-01" }

abbrev request : Request
request = record { host_values = []; path = "/a" }

request_labels-IsKnown_example :
    (host : String) × (path : String) × (request_labels exact_tree default_only.state request "GET"
        "200"
      ≡ ("host", host) ∷ ("path", path) ∷ ("method", "GET") ∷ ("status", "200") ∷ [])
    × IsKnown exact_tree default_only.state host path
request_labels-IsKnown_example =
    request_labels-IsKnown exact_tree default_only request "GET" "200" default_only-Wired

-- One upstream for all hosts.
abbrev site : UpstreamHttpConfig
site = record {
  url = "http://example.com";
  http_timeout = none;
  http_read_timeout = none;
  http_connect_timeout = none;
}

abbrev simple : Config
simple = record settings { hosts = []; upstream = some (http site) }

abbrev table : CacheRoutes exact_tree
table = new_routes exact_tree (enabled (record { max_age = cache_forever }))

abbrev simple_server : Server exact_tree
simple_server = record {
  state = record {
    upstream = some (new_cache exact_tree "**" table);
    host_upstreams = [];
    metadata = simple.metadata;
  };
  upstream = some (
      http_get (record {
        join = clients.join site.url;
        send = λ url.
            ok (record { status = 200; content_type = none; content_length = none; frames = [] });
        error_for_status = clients.error_for_status;
        parse = clients.parse;
      }));
  host_upstreams = [];
}

starts : new_server exact_tree list_lru limits clients simple ≡ done (ok (simple_server, storage))
unfolding new_server new_storage empty_storage from_config default_server add_hosts ensure_upstream
    build_upstream new_http http_builder default_cache_config list_lru
starts = refl

-- Its routes keep all files for ever.
simple-is :
    (name : Option String) (cache : Cache exact_tree)
    → cache_for_host exact_tree simple_server.state name ≡ some cache
    → new_cache exact_tree "**" table ≡ cache
unfolding cache_for_host index
simple-is none cache found = cc (found)
simple-is (some name) cache found = cc (found)

simple-ClockAdds : (now : ℕ) → ClockAdds exact_tree world now simple_server.state request
unfolding new_cache match_route new_routes
simple-ClockAdds now value cache e found =
    subst (λ c. Adds world now (match_route exact_tree c.rules "/a").0)
      (simple-is (map_option hostname value) cache found) tt

abbrev visit : ℕ → Visit
visit now = record { request = request; outside = world; now = now }

new_server-serve_all_example :
    (results : List (Result AppError HttpResponse)) × (s' : CacheStorage list_lru) × (serve_all
        exact_tree list_lru option_cell headers simple_server
        (visit 5 ∷ visit 9 ∷ [])
        storage
      ≡ done (results, s'))
    × (length results ≡ 2)
    × IsValid list_lru 10 s'
new_server-serve_all_example =
    new_server-serve_all exact_tree list_lru option_cell headers limits clients simple simple_server
      storage (visit 5 ∷ visit 9 ∷ []) (λ soft hard n m got within e. ground (arith, e)) refl
      (omega arith) (omega arith) starts (simple-ClockAdds 5, (simple-ClockAdds 9, tt))

abbrev json : JsonError → HttpResponse
json error = record {
  status = 200;
  headers = ("content-type", "application/json") ∷ [];
  body = record { frames = []; size_hint = record { lower = 0; upper = none } };
}

abbrev to_text : ℕ → String
to_text status = if status == 200 then "200" else "other"

default-is :
    (name : Option String) (cache : Cache exact_tree)
    → cache_for_host exact_tree default_only.state name ≡ some cache
    → new_cache exact_tree "**" routes ≡ cache
unfolding cache_for_host index
default-is none cache found = cc (found)
default-is (some name) cache found = cc (found)

default-ClockAdds : ClockAdds exact_tree world 5 default_only.state request
unfolding new_cache
default-ClockAdds value cache e found =
    subst (λ c. Adds world 5 (match_route exact_tree c.rules "/a").0)
      (default-is (map_option hostname value) cache found) world-Adds

serve_request-Handled_example :
    (response : HttpResponse) × (name : String) × (path : String) × (s' : CacheStorage list_lru)
    × (serve_request json to_text exact_tree list_lru option_cell headers default_only.state world 5
          40 "GET" request storage
        ≡ done (
          response,
          requests_total (labels_of to_text name path "GET" response.status) 1
              ∷ requests_duration (labels_of to_text name path "GET" response.status) 40
              ∷ [],
          s',
        ))
    × IsKnown exact_tree default_only.state name path
    × IsValid list_lru 10 s'
    × Handled json exact_tree list_lru option_cell headers world 5 10 default_only.state request
        (host request.host_values)
        response
        storage
        s'
serve_request-Handled_example =
    serve_request-Handled json to_text exact_tree list_lru option_cell headers default_only world 5
      10 40 "GET" request storage (omega arith) default-ClockAdds default_only-Wired storage-IsValid
