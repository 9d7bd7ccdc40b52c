-- ===== src/App/Defs.antt =====
-- src/app.rs: requests, errors, and the choice of a cache by the host.
use text.Mathlib.Text.{◌==◌ as str_eq}
use server.Cache.{Cache, get_path_pattern, index}
use server.Config.{MetadataConfig}
use server.Prelude.{
  ℕ, String, Option, none, some, List, [], ◌∷◌, if◌then◌else◌, Result, ok, err, rsplit_once,
}
use server.Routes.{PathTree, CacheRouteRule}
use server.Upstream.{Body, UpstreamError, UpstreamResource}

-- A request: the values of its `Host` headers, each `none` if it is no text, and its path.
pub record Request : Type 0 where
  pub host_values : List (Option String)
  pub path : String

pub record HttpResponse : Type 0 where
  pub status : ℕ
  pub headers : List (String × String)
  pub body : Body

pub data AppError : Type 0 where
  upstream : UpstreamError → AppError
  not_found : String → AppError
  no_upstream_server : Option String → AppError
  invalid_host_header : AppError

-- `host`; the error is `InvalidHostHeader`.
unfoldable pub host : List (Option String) → Result AppError (Option String)
host [] = ok none
host (_ ∷ _ ∷ _) = err invalid_host_header
host (none ∷ []) = err invalid_host_header
host (some value ∷ []) = ok (some value)

-- The host without the port.
unfoldable pub hostname : String → String
unfolding rsplit_once
hostname value = elim (rsplit_once b':' value) [ some (host, _) ↦ host | none ↦ value ]

abbrev pub map_option {ℓ κ} : {A : Type ℓ} {B : Type κ} → (A → B) → Option A → Option B
map_option f none = none
map_option f (some a) = some (f a)

-- `HeaderMap::insert`: the header replaces any of its name.
unfoldable pub insert_header : String → String → List (String × String) → List (String × String)
insert_header name value [] = (name, value) ∷ []
insert_header name value ((n, v) ∷ rest) =
    if str_eq n name then (name, value) ∷ rest else (n, v) ∷ insert_header name value rest

-- `UpstreamResource::into_response`.
unfoldable pub into_response : UpstreamResource → HttpResponse
into_response resource = record {
  status = 200;
  headers = elim resource.headers.content_type [
    | some content_type ↦ ("content-type", content_type) ∷ []
    | none ↦ []
  ];
  body = resource.body;
}

module _ (tree : PathTree (CacheRouteRule × String)) where
  -- `host_upstreams` is a `HashMap`, as the list of its entries.
  pub record AppState : Type 0 where
    pub upstream : Option (Cache tree)
    pub host_upstreams : List (String × Cache tree)
    pub metadata : MetadataConfig

  unfoldable pub cache_for_host : AppState → Option String → Option (Cache tree)
  unfolding index
  cache_for_host state none = state.upstream
  cache_for_host state (some host) = elim (index state.host_upstreams host) [
    | some cache ↦ some cache
    | none ↦ state.upstream
  ]

  -- The pattern of a path, of a cache that may not be there.
  unfoldable pub pattern_of : Option (Cache tree) → String → Option String
  pattern_of none path = none
  pattern_of (some cache) path = get_path_pattern tree cache path

  -- The labels that a request gets in the metrics of the server.
  unfoldable pub filtered_host_and_path :
      AppState → Option String → String → Option String × Option String
  unfolding index pattern_of get_path_pattern
  filtered_host_and_path state none path = (none, pattern_of state.upstream path)
  filtered_host_and_path state (some host) path = elim (index state.host_upstreams host) [
    | some cache ↦ (some host, get_path_pattern tree cache path)
    | none ↦ (none, pattern_of state.upstream path)
  ]
