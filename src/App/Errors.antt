-- ===== src/App/Errors.antt =====
-- src/app.rs: what a client is told of an error.
use Prim.Native.String.{◌++◌}
use server.App.Defs.{
  AppError, AppState, HttpResponse, Request, upstream, not_found, no_upstream_server,
  invalid_host_header,
}
use server.App.Handler.{Headers, get_resource}
use server.Cache.{CacheStorage, CachedResourceKey, CachedResourceKey-discrete, Outside}
use server.Lru.{LruCache, OnceCell}
use server.Prelude.{ℕ, String, Result, ok, err, Run, done, ◌>>=◌}
use server.Routes.{PathTree, CacheRouteRule}
use server.Upstream.{UpstreamError, url, reqwest, get_object, io}

-- `UpstreamError` is transparent: it displays as the library's error.
unfoldable pub display_upstream : UpstreamError → String
display_upstream (url text) = text
display_upstream (reqwest text) = text
display_upstream (get_object text) = text
display_upstream (io text) = text

-- `ResourceNotFound`.
unfoldable pub display_not_found : String → String
display_not_found path = "resource not found: " ++ path

-- `AppError` as it displays.
unfoldable pub display : AppError → String
unfolding display_upstream display_not_found
display (upstream error) = "upstream error: " ++ display_upstream error
display (not_found path) = display_not_found path
display (no_upstream_server _) = "no upstream server configured for this host"
display invalid_host_header = "invalid 'Host' header value"

pub record JsonError : Type 0 where
  pub message : String

-- The pair of `AppError::into_response`.
unfoldable pub status_and_message : AppError → ℕ × String
unfolding display_upstream display_not_found display
status_and_message (upstream error) = (500, "upstream error: " ++ display_upstream error)
status_and_message (not_found path) = (404, display_not_found path)
status_and_message (no_upstream_server hostname) = (404, display (no_upstream_server hostname))
status_and_message invalid_host_header = (400, display invalid_host_header)

module _ (json : JsonError → HttpResponse) where
  -- `json` is `Json::into_response`; the status in front of it replaces its own.
  unfoldable pub error_into_response : AppError → HttpResponse
  unfolding status_and_message
  error_into_response error =
      let (status, message) = status_and_message error in
      record (json (record { message = message })) { status = status }

  -- A handler's result as a response.
  abbrev pub result_into_response : Result AppError HttpResponse → HttpResponse
  result_into_response (ok response) = response
  result_into_response (err error) = error_into_response error

  -- The route of `router`, for a `GET` request.
  unfoldable pub handle :
      (tree : PathTree (CacheRouteRule × String))
      (lru : LruCache CachedResourceKey ℕ CachedResourceKey-discrete) (once : OnceCell)
      → Headers
      → AppState tree
      → Request
      → Outside
      → ℕ
      → CacheStorage lru
      → Run (HttpResponse × CacheStorage lru)
  unfolding get_resource
  handle tree lru once h state request outside now s = do
    (result, s') ← get_resource tree lru once h state request outside now s
    done (result_into_response result, s')
