-- ===== src/Main/Labels.antt =====
-- The labels that requests get in the server's metrics.
use Prim.Native.String.{◌++◌}
use server.App.{
  AppState, Headers, Request, filtered_host_and_path, get_from, get_resource, host, pattern_of,
}
use server.App.Hosts.{HasNoColon, hostname-port}
use server.Lru.{LruCache, OnceCell}
use server.Cache.{
  CacheStorage, CachedResourceKey, CachedResourceKey-discrete, Outside, Cache, index, new_cache,
  get_path_pattern,
}
use server.Main.Middleware.{host_of, request_labels}
use server.Main.Wired.{IsOwn, Wired}
use server.Main.Start.{Server, unwrap_or}
use server.Prelude.{
  ℕ, List, ◌≡◌, ◌⊎◌, refl, sym, ap, subst, inl, inr, String, Option, none, some, [], ◌∷◌, true,
  Option-cases,
}
use server.Routes.{PathTree, CacheRouteRule, contains, matched, match_route}
use server.Routes.Matching.{IsTied}

module _ (tree : PathTree (CacheRouteRule × String)) where
  -- A pattern of the cache's routes, or the placeholder.
  abbrev pub IsLabel : Cache tree → String → Type 0
  IsLabel cache path = (path ≡ "**") ⊎ (contains cache.rules.route_paths path ≡ true)

  -- A configured host with a label of its cache, or the placeholder with one of the default cache.
  abbrev pub IsKnown : AppState tree → String → String → Type 0
  IsKnown state host path =
      ((cache : Cache tree) × (index state.host_upstreams host ≡ some cache) × IsLabel cache path)
      ⊎ ((host ≡ "**")
          × ((path ≡ "**")
              ⊎ ((cache : Cache tree) × (state.upstream ≡ some cache) × IsLabel cache path)))

  pattern-IsLabel :
      (name : String) (cache : Cache tree) (path : String)
      → IsOwn tree name cache
      → IsLabel cache (unwrap_or (get_path_pattern tree cache path) "**")
  unfolding get_path_pattern match_route matched new_cache IsTied
  pattern-IsLabel name cache path (routes, is, tied) =
      subst (λ c. IsLabel c (unwrap_or (get_path_pattern tree c path) "**")) (sym is)
        (elim (Option-cases (tree.find routes.route_rules path)) [
          | inl unmatched ↦ inl (ap (λ o. unwrap_or (matched tree routes o).1 "**") unmatched)
          | inr ((rule, pattern), found) ↦ inr (
              subst
                (λ o. contains routes.route_paths (unwrap_or (matched tree routes o).1 "**") ≡ true)
                (sym found)
                (tied rule pattern (tree.find_holds routes.route_rules path (rule, pattern) found)))
        ])

  -- In a server as the start makes it every request is counted under a host and a path of the
  -- configuration: a configured host, with a pattern of its routes or the placeholder "**"; or the
  -- placeholder, with a pattern of the default routes or the placeholder. The method is the
  -- request's, and the status that of its response.
  pub request_labels-IsKnown :
      (server : Server tree) (request : Request) (method status : String)
      → Wired tree server
      → (host : String) × (path : String) × (request_labels tree server.state request method status
          ≡ ("host", host) ∷ ("path", path) ∷ ("method", method) ∷ ("status", status) ∷ [])
        × IsKnown server.state host path
  unfolding request_labels pattern_of filtered_host_and_path
  request_labels-IsKnown server request method status w =
      let (host, path) = filtered_host_and_path tree server.state (host_of request) request.path in
      (unwrap_or host "**", unwrap_or path "**", refl, known (host_of request))
    where
      general :
          (o : Option (Cache tree))
          → server.state.upstream ≡ o
          → IsKnown server.state "**" (unwrap_or (pattern_of tree o request.path) "**")
      general none e = inr (refl, inl refl)
      general (some cache) e =
          inr (refl, inr (cache, e, pattern-IsLabel "**" cache request.path (w.general cache e).0))

      known :
          (name : Option String)
          → IsKnown server.state
              (unwrap_or (filtered_host_and_path tree server.state name request.path).0 "**")
              (unwrap_or (filtered_host_and_path tree server.state name request.path).1 "**")
      known none = (general server.state.upstream refl)
      known (some name) = elim (Option-cases (index server.state.host_upstreams name)) [
        | inl unknown ↦ rw (unknown, filtered_host_and_path) ((general server.state.upstream refl))
        | inr (cache, found) ↦
            rw (found, filtered_host_and_path)
              (inl
                (cache, found, pattern-IsLabel name cache request.path (w.own name cache found).0))
      ]

  abbrev with_host : Request → List (Option String) → Request
  with_host request values = record request { host_values = values }

  -- For a configured host, with no colon in its name, and a request whose `Host` header adds a port
  -- to it: the request is answered just as one with no port. But if the name with the port is not
  -- configured itself, its labels in the server's metrics are those of a request with no `Host`
  -- header, while those of one with no port name the host.
  pub request_labels-port :
      (lru : LruCache CachedResourceKey ℕ CachedResourceKey-discrete) (once : OnceCell)
      (headers : Headers) (state : AppState tree) (request : Request) (outside : Outside) (now : ℕ)
      (s : CacheStorage lru) (name port method status : String) (cache : Cache tree)
      → HasNoColon name
      → HasNoColon port
      → index state.host_upstreams name ≡ some cache
      → index state.host_upstreams (name ++ String.◌∷◌ ":" port) ≡ none
      → (get_resource tree lru once headers state
            (with_host request (some (name ++ String.◌∷◌ ":" port) ∷ []))
            outside
            now
            s
          ≡ get_resource tree lru once headers state
              (with_host request (some name ∷ []))
              outside
              now
              s)
        × (request_labels tree state
              (with_host request (some (name ++ String.◌∷◌ ":" port) ∷ []))
              method
              status
            ≡ request_labels tree state (with_host request []) method status)
        × (path : String) × (request_labels tree state
              (with_host request (some name ∷ []))
              method
              status
            ≡ ("host", name) ∷ ("path", path) ∷ ("method", method) ∷ ("status", status) ∷ [])
  unfolding get_resource get_from host request_labels host_of filtered_host_and_path
  request_labels-port lru once headers state request outside now s name port method status cache
        plain no_colon known unknown =
      let (dropped, same) = hostname-port name port no_colon in
      (
        rw (dropped, get_resource) (rw (same plain, get_resource) refl),
        rw (unknown, filtered_host_and_path) refl,
        unwrap_or (pattern_of tree (some cache) request.path) "**",
        rw (known, filtered_host_and_path) refl,
      )
