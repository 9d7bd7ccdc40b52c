-- ===== src/Main/Counted.antt =====
-- src/main.rs and src/app.rs: a request through the middleware and the handler.
use server.App.{AppState, HttpResponse, Request, Headers, JsonError, handle, host}
use server.App.Served.{ClockAdds}
use server.App.Told.{Handled, handle-Handled}
use server.Cache.Claim.{IsValid}
use server.Cache.{CacheStorage, CachedResourceKey, CachedResourceKey-discrete, Outside}
use server.Lru.{LruCache, OnceCell}
use server.Main.Labels.{IsKnown, request_labels-IsKnown}
use server.Main.Middleware.{
  HttpMetric, requests_total, requests_duration, request_metrics_middleware,
}
use server.Main.Wired.{Wired, Wired-AreMade}
use server.Main.Start.{Server}
use server.Pool.{u64_mod}
use server.Prelude.{ℕ, ◌<◌, ◌≡◌, ap, String, List, [], ◌∷◌, Run, done}
use server.Routes.{PathTree, CacheRouteRule}

abbrev pub labels_of : (ℕ → String) → String → String → String → ℕ → List (String × String)
labels_of to_text host path method status =
    ("host", host) ∷ ("path", path) ∷ ("method", method) ∷ ("status", to_text status) ∷ []

module _ (json : JsonError → HttpResponse) (to_text : ℕ → String)
    (tree : PathTree (CacheRouteRule × String))
    (lru : LruCache CachedResourceKey ℕ CachedResourceKey-discrete) (once : OnceCell)
    (h : Headers) where
  -- A request from the middleware on.
  unfoldable pub serve_request :
      AppState tree
      → Outside
      → ℕ
      → ℕ
      → String
      → Request
      → CacheStorage lru
      → Run (HttpResponse × List HttpMetric × CacheStorage lru)
  unfolding request_metrics_middleware handle
  serve_request state outside now elapsed method request s =
      request_metrics_middleware tree to_text elapsed state method request
        (λ request s. handle json tree lru once h state request outside now s) s

  -- In a server as the start makes it, on a valid storage of a capacity below 2^64, and with a
  -- clock that can add the age, if there is one, of the rule that the path matches for the host,
  -- every `GET` request gets a response as its `Host` header, its path and the cache call for,
  -- and leaves a valid storage. It is counted once and timed once, under the same labels: the
  -- status of its response, its method, and a host and a path of the configuration or their
  -- placeholder "**".
  pub serve_request-Handled :
      (server : Server tree) (outside : Outside) (now capacity elapsed : ℕ) (method : String)
      (request : Request) (s : CacheStorage lru)
      → capacity < u64_mod
      → ClockAdds tree outside now server.state request
      → Wired tree server
      → IsValid lru capacity s
      → (response : HttpResponse) × (name : String) × (path : String) × (s' : CacheStorage lru)
        × (serve_request server.state outside now elapsed method request s
            ≡ done (
              response,
              requests_total (labels_of to_text name path method response.status) 1
                  ∷ requests_duration (labels_of to_text name path method response.status) elapsed
                  ∷ [],
              s',
            ))
        × IsKnown tree server.state name path
        × IsValid lru capacity s'
        × Handled json tree lru once h outside now capacity server.state request
            (host request.host_values)
            response
            s
            s'
  unfolding serve_request request_metrics_middleware
  serve_request-Handled server outside now capacity elapsed method request s bounded clock w valid =
      let (response, s', ran, valid', handled) =
        handle-Handled json tree lru once h outside now capacity server.state request s bounded
          clock (Wired-AreMade tree server w) valid in
      let (name, path, labels, known) =
        request_labels-IsKnown tree server request method (to_text response.status) w in
      (
        response,
        name,
        path,
        s',
        rw (ran, request_metrics_middleware)
            (ap (λ ls. done (response, requests_total ls 1 ∷ requests_duration ls elapsed ∷ [], s'))
              labels),
        known,
        valid',
        handled,
      )
