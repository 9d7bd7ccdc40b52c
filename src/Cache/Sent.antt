-- ===== src/Cache/Sent.antt =====
-- src/cache.rs: the responses of `Cache::get`, and the ages that the clock has to add for them.
use server.Cache.Body.{body_from_cached_resource}
use server.Cache.Get.{found_response, pass_on}
use server.Cache.Types.{
  CachedResource, CachedResourceKey, CachedResourceKey-discrete, CacheOutcome, hit, miss, never,
  CachedResourceResponse, Outside,
}
use server.Lru.{LruCache, OnceCell}
use server.Prelude.{
  ℕ, ◌≡◌, ◌≢◌, ◌⊎◌, inl, inr, refl, String, if◌then◌else◌, Option, none, some, Bool-cases, ◌==◌,
  Result, ok, err, arith,
}
use server.Routes.{
  PathTree, CacheRouteRule, CacheMaxAgeRule, enabled, disabled, cache_forever, cache_for,
  cache_never,
}
use server.Upstream.{UpstreamError, UpstreamResource, Body, io}

abbrev Response : Type 0
Response = Result UpstreamError (Option CachedResourceResponse)

-- A file that could be opened again is sent with its headers and its expiry.
abbrev pub Sends : CacheOutcome → CachedResource → Result String Body → Response → Type 0
Sends outcome r (err error) response = response ≡ err (io error)
Sends outcome r (ok body) response =
    response
    ≡ ok (
        some (record {
          resource = record { headers = r.headers; body = body };
          outcome = outcome;
          expires_at = r.expires_at_timestamp;
        }))

-- A file is a miss for the request that has made it, whose number it bears, and a hit for others.
abbrev pub IsOutcome : CacheOutcome → Outside → CachedResource → Type 0
IsOutcome outcome outside r =
    ((r.id ≡ outside.new_v4) × (outcome ≡ miss)) ⊎ ((r.id ≢ outside.new_v4) × (outcome ≡ hit))

-- The response with a file of the cache.
abbrev pub Finds : Outside → CachedResource → Response → Type 0
Finds outside r response =
    (outcome : CacheOutcome) × IsOutcome outcome outside r
    × Sends outcome r (body_from_cached_resource outside r) response

-- The response with what the upstream has answered, of which nothing is kept.
abbrev pub Passes : Result UpstreamError (Option UpstreamResource) → Response → Type 0
Passes (err error) response = response ≡ err error
Passes (ok none) response = response ≡ ok none
Passes (ok (some resource)) response =
    response ≡ ok (some (record { resource = resource; outcome = never; expires_at = none }))

-- The clock can add the age of the rule, if it has one, to `now`.
abbrev pub AddsAge : Outside → ℕ → CacheMaxAgeRule → Type 0
AddsAge outside now cache_forever = Unit
AddsAge outside now (cache_for duration) =
    (t : ℕ) × (outside.instant_checked_add now duration ≡ some t)
AddsAge outside now cache_never = Unit

abbrev pub Adds : Outside → ℕ → CacheRouteRule → Type 0
Adds outside now disabled = Unit
Adds outside now (enabled rule) = AddsAge outside now rule.max_age

module _ (tree : PathTree (CacheRouteRule × String))
    (lru : LruCache CachedResourceKey ℕ CachedResourceKey-discrete) (once : OnceCell) where
  pub pass_on-Passes :
      (answer : Result UpstreamError (Option UpstreamResource))
      → Passes answer (pass_on tree lru once answer)
  unfolding pass_on
  pass_on-Passes (err error) = refl
  pass_on-Passes (ok none) = refl
  pass_on-Passes (ok (some resource)) = refl

  its-IsOutcome :
      (outside : Outside) (r : CachedResource)
      → IsOutcome (if outside.new_v4 == r.id then miss else hit) outside r
  its-IsOutcome outside r = elim (Bool-cases (outside.new_v4 == r.id)) [
    | inl same ↦ inl (ground (arith, same), rw same)
    | inr other ↦ inr (ground (arith, other), rw other)
  ]

  found_response-Sends :
      (outside : Outside) (r : CachedResource) (body : Result String Body)
      → body_from_cached_resource outside r ≡ body
      → Sends
          (if outside.new_v4 == r.id then miss else hit)
          r
          body
          (found_response tree lru once outside r)
  unfolding found_response
  found_response-Sends outside r (ok body) e = rw (e, found_response) refl
  found_response-Sends outside r (err error) e = rw (e, found_response) refl

  pub found_response-Finds :
      (outside : Outside) (r : CachedResource)
      → Finds outside r (found_response tree lru once outside r)
  found_response-Finds outside r = (
    _,
    its-IsOutcome outside r,
    found_response-Sends outside r (body_from_cached_resource outside r) refl,
  )
