-- ===== src/Main/Middleware.antt =====
-- src/main.rs, `request_metrics_middleware`: what the server counts of its requests.
use server.App.{HttpResponse, AppState, Request, filtered_host_and_path, host}
use server.Main.Start.{unwrap_or}
use server.Prelude.{ℕ, Run, done, ◌>>=◌, String, Option, none, List, [], ◌∷◌, ok, err}
use server.Routes.{PathTree, CacheRouteRule}

-- `host(…).ok().flatten()`.
unfoldable pub host_of : Request → Option String
unfolding host
host_of request = elim (host request.host_values) [ err error ↦ none | ok value ↦ value ]

module _ (tree : PathTree (CacheRouteRule × String)) where
  -- `status` is the text of the response's status.
  unfoldable pub request_labels : AppState tree → Request → String → String → List (String × String)
  unfolding host_of filtered_host_and_path
  request_labels state request method status =
      let (host, path) = filtered_host_and_path tree state (host_of request) request.path in
      ("host", unwrap_or host "**")
      ∷ ("path", unwrap_or path "**")
      ∷ ("method", method)
      ∷ ("status", status)
      ∷ []

-- The updates of `http_requests_total` and `http_requests_duration_seconds`, with their labels; the
-- duration is in nanoseconds.
pub data HttpMetric : Type 0 where
  requests_total : List (String × String) → ℕ → HttpMetric
  requests_duration : List (String × String) → ℕ → HttpMetric

module _ (tree : PathTree (CacheRouteRule × String)) where
  -- `to_text` prints a status, `elapsed` is the time that the request has taken, and `next` is the
  -- rest of the server, with the state `S` that it changes.
  unfoldable pub request_metrics_middleware :
      {S : Type 0}
      → (ℕ → String)
      → ℕ
      → AppState tree
      → String
      → Request
      → (Request → S → Run (HttpResponse × S))
      → S
      → Run (HttpResponse × List HttpMetric × S)
  unfolding request_labels
  request_metrics_middleware to_text elapsed state method request next s = do
    (response, s') ← next request s
    let labels = request_labels tree state request method (to_text response.status)
    done (response, requests_total labels 1 ∷ requests_duration labels elapsed ∷ [], s')
