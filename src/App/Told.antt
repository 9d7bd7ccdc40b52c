-- ===== src/App/Told.antt =====
-- src/app.rs: the responses to all requests.
use Prim.Native.String.{◌++◌}
use server.App.Defs.{
  AppError, invalid_host_header, AppState, HttpResponse, Request, cache_for_host, host, hostname,
  map_option,
}
use server.App.Errors.{
  JsonError, display_upstream, display_not_found, error_into_response, result_into_response, handle,
}
use server.App.Handler.{Headers, answer}
use server.App.Metadata.{add_metadata-header}
use server.App.Served.{AreMade, ClockAdds, Served, ServedBy, get_resource-Served}
use server.Cache.Claim.{IsValid}
use server.Cache.Total.{Answers}
use server.Cache.{
  Cache, CacheStorage, CachedResourceKey, CachedResourceKey-discrete, CachedResourceResponse,
  Outside,
}
use server.Lru.{LruCache, OnceCell}
use server.Pool.{u64_mod}
use server.Prelude.{
  ℕ, ◌<◌, ◌≡◌, refl, sym, ap, ◌∙◌, subst, String, List, [], ◌∷◌, Option, none, some, Result, ok,
  err, done,
}
use server.Routes.{PathTree, CacheRouteRule, match_route}
use server.Upstream.{UpstreamError}

module _ (json : JsonError → HttpResponse) where
  -- The status, and the JSON error with the message for a body.
  abbrev pub IsError : ℕ → String → HttpResponse → Type 0
  IsError status message response =
      response ≡ record (json (record { message = message })) { status = status }

  -- What a client is told when the cache has answered.
  abbrev pub Told :
      String → Result UpstreamError (Option CachedResourceResponse) → HttpResponse → Type 0
  Told path (err error) response =
      IsError 500 ("upstream error: " ++ display_upstream error) response
  Told path (ok none) response = IsError 404 ("resource not found: " ++ path) response
  Told path (ok (some found)) response =
      (response.status ≡ 200) × (response.body ≡ found.resource.body)

  module _ (tree : PathTree (CacheRouteRule × String))
      (lru : LruCache CachedResourceKey ℕ CachedResourceKey-discrete) (once : OnceCell)
      (h : Headers) (outside : Outside) (now capacity : ℕ) where
    -- By the cache of the host, if there is one.
    abbrev pub ToldBy :
        Option (Cache tree) → String → HttpResponse → CacheStorage lru → CacheStorage lru → Type 0
    ToldBy none path response s s' =
        IsError 404 "no upstream server configured for this host" response × (s' ≡ s)
    ToldBy (some cache) path response s s' =
        (result : Result UpstreamError (Option CachedResourceResponse)) × Told path result response
        × Answers tree lru once cache outside path now capacity
            (match_route tree cache.rules path).0 result s s'

    -- By the `Host` header.
    abbrev pub Handled :
        AppState tree
        → Request
        → Result AppError (Option String)
        → HttpResponse
        → CacheStorage lru
        → CacheStorage lru
        → Type 0
    Handled state request (err error) response s s' =
        IsError 400 "invalid 'Host' header value" response × (s' ≡ s)
    Handled state request (ok value) response s s' =
        ToldBy (cache_for_host tree state (map_option hostname value)) request.path response s s'

    answer-Told :
        (state : AppState tree) (path : String)
        (result : Result UpstreamError (Option CachedResourceResponse))
        → Told path result
            (result_into_response json (answer tree lru once h state.metadata path result))
    unfolding answer error_into_response display_not_found
    answer-Told state path (err error) = refl
    answer-Told state path (ok none) = refl
    answer-Told state path (ok (some found)) =
        let said = add_metadata-header h state.metadata found in (said.0, said.1)

    host-error :
        (values : List (Option String)) (error : AppError)
        → host values ≡ err error
        → error ≡ invalid_host_header
    unfolding host
    host-error [] error e = absurd (cc (e))
    host-error (none ∷ []) error e = cc (e)
    host-error (some value ∷ []) error e = absurd (cc (e))
    host-error (none ∷ v ∷ values) error e = cc (e)
    host-error (some u ∷ v ∷ values) error e = cc (e)

    told_by :
        (state : AppState tree) (value : Option String) (found : Option (Cache tree))
        (path : String) (result : Result AppError HttpResponse) (s s' : CacheStorage lru)
        → ServedBy tree lru once h outside now capacity state
            (map_option hostname value)
            found
            path
            result
            s
            s'
        → ToldBy found path (result_into_response json result) s s'
    unfolding error_into_response
    told_by state value none path result s s' (is, same) = (ap (result_into_response json) is, same)
    told_by state value (some cache) path result s s' (response, is, answers) = (
      response,
      subst (Told path response) (ap (result_into_response json) (sym is))
          (answer-Told state path response),
      answers,
    )

    handled :
        (state : AppState tree) (request : Request) (name : Result AppError (Option String))
        (result : Result AppError HttpResponse) (s s' : CacheStorage lru)
        → host request.host_values ≡ name
        → Served tree lru once h outside now capacity state request name result s s'
        → Handled state request name (result_into_response json result) s s'
    unfolding error_into_response
    handled state request (err error) result s s' e (is, same) = (
      ap (result_into_response json) (is ∙ ap err (host-error request.host_values error e)),
      same,
    )
    handled state request (ok value) result s s' e served =
        told_by state value (cache_for_host tree state (map_option hostname value)) request.path
          result s s' served

    -- Every `GET` request, if every cache was made for a table that is tied to its paths, the
    -- storage is valid, its capacity is below 2^64 and the clock can add the age, if there is
    -- one, of the rule that the path matches for the host, gets a response, and leaves a valid
    -- storage. A bad `Host` header is told with status 400 and a host with no cache with 404,
    -- both with the storage as it was. Else the cache of the host answers: an error is told with
    -- 500 and the error's text, a missing path with 404 and the path, and a resource is sent with
    -- 200 and its body. All errors are JSON with a message.
    pub handle-Handled :
        (state : AppState tree) (request : Request) (s : CacheStorage lru)
        → capacity < u64_mod
        → ClockAdds tree outside now state request
        → AreMade tree state
        → IsValid lru capacity s
        → (response : HttpResponse) × (s' : CacheStorage lru) × (handle json tree lru once h state
              request outside now s
            ≡ done (response, s'))
          × IsValid lru capacity s'
          × Handled state request (host request.host_values) response s s'
    unfolding handle
    handle-Handled state request s bounded clock made valid =
        let (result, s', ran, valid', served) =
          get_resource-Served tree lru once h outside now capacity state request s bounded clock
            made valid in
        (
          result_into_response json result,
          s',
          rw (ran, handle) refl,
          valid',
          handled state request (host request.host_values) result s s' refl served,
        )
