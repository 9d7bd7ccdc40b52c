-- ===== src/App/Handler.antt =====
-- src/app.rs: `get_resource`.
use server.App.Defs.{
  Request, HttpResponse, AppError, upstream, not_found, no_upstream_server, host, hostname,
  map_option, insert_header, into_response, AppState, cache_for_host,
}
use server.Cache.{
  Cache, CacheStorage, CachedResourceKey, CachedResourceKey-discrete, CachedResourceResponse,
  Outside, as_str, get,
}
use server.Config.{MetadataConfig}
use server.Lru.{LruCache, OnceCell}
use server.Prelude.{ℕ, String, Option, none, some, if◌then◌else◌, Result, ok, err, Run, done, ◌>>=◌}
use server.Routes.{PathTree, CacheRouteRule}
use server.Upstream.{UpstreamError}

-- `HeaderValue::from_str` and the printing of a timestamp.
pub record Headers : Type 0 where
  pub from_str : String → Option String
  pub timestamp_to_string : ℕ → String

-- A header that is set if there is a value for it.
unfoldable pub insert_some : String → Option String → HttpResponse → HttpResponse
insert_some name none response = response
insert_some name (some value) response = record response {
  headers = insert_header name value response.headers;
}

abbrev pub bind_option {ℓ κ} : {A : Type ℓ} {B : Type κ} → Option A → (A → Option B) → Option B
bind_option none f = none
bind_option (some a) f = f a

-- The metadata headers of `get_resource`.
unfoldable pub add_metadata :
    Headers → MetadataConfig → CachedResourceResponse → HttpResponse → HttpResponse
unfolding insert_some
add_metadata h metadata resource response =
    let r1 =
      if metadata.cache_outcome
      then insert_some "server3-cache-outcome" (some (as_str resource.outcome)) response
      else response in
    let r2 =
      if metadata.expires_at
      then insert_some "server3-expires-at"
          (bind_option resource.expires_at (λ t. h.from_str (h.timestamp_to_string t))) r1
      else r1 in
    insert_some "server3-node-name" (bind_option metadata.node_name h.from_str) r2

module _ (tree : PathTree (CacheRouteRule × String))
    (lru : LruCache CachedResourceKey ℕ CachedResourceKey-discrete) (once : OnceCell)
    (h : Headers) where
  -- The answer to a request, by what the cache gives.
  unfoldable pub answer :
      MetadataConfig
      → String
      → Result UpstreamError (Option CachedResourceResponse)
      → Result AppError HttpResponse
  unfolding add_metadata into_response
  answer metadata path (err error) = err (upstream error)
  answer metadata path (ok none) = err (not_found path)
  answer metadata path (ok (some resource)) =
      ok (add_metadata h metadata resource (into_response resource.resource))

  -- `get_resource`, once the host is known.
  unfoldable pub get_from :
      AppState tree
      → Option String
      → Option (Cache tree)
      → Outside
      → String
      → ℕ
      → CacheStorage lru
      → Run (Result AppError HttpResponse × CacheStorage lru)
  unfolding answer
  get_from state name none outside path now s = done (err (no_upstream_server name), s)
  get_from state name (some cache) outside path now s = do
    (resource, s') ← get tree lru once cache outside path now s
    done (answer state.metadata path resource, s')

  unfoldable pub get_resource :
      AppState tree
      → Request
      → Outside
      → ℕ
      → CacheStorage lru
      → Run (Result AppError HttpResponse × CacheStorage lru)
  unfolding get_from host hostname cache_for_host
  get_resource state request outside now s = elim (host request.host_values) [
    | err error ↦ done (err error, s)
    | ok value ↦
        let name = map_option hostname value in
        get_from state name (cache_for_host tree state name) outside request.path now s
  ]
