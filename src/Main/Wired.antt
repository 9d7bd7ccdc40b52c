-- ===== src/Main/Wired.antt =====
-- src/main.rs, `main`: the caches of the state, and the upstreams that they were given.
use text.Mathlib.Text.{◌==◌ as str_eq}
use text.Mathlib.TextEquality.{eq_iff}
use server.App.{cache_for_host}
use server.App.Served.{AreMade}
use server.Cache.{Cache, index, new_cache}
use server.Config.{HostConfig, UpstreamConfig}
use server.Main.Start.{Server, insert_entry, insert_host}
use server.Prelude.{
  ◌≡◌, ◌⊎◌, refl, sym, ap, ◌∙◌, inl, inr, String, none, some, List, [], ◌∷◌, arith, if◌then◌else◌,
  Bool-cases, Option-cases,
}
use server.Routes.{PathTree, CacheRouteRule, CacheRoutes}
use server.Routes.Matching.{IsTied}
use server.Upstream.{Upstream}

pub index-insert_entry :
    {A : Type 0} (k j : String) (a : A) (es : List (String × A))
    → index (insert_entry k a es) j ≡ (if str_eq k j then some a else index es j)
unfolding index insert_entry
index-insert_entry k j a [] = refl
index-insert_entry k j a ((i, b) ∷ es) =
    ground (arith, eq_iff k j, eq_iff i k, eq_iff i j, index-insert_entry k j a es)

-- The host is configured, with an upstream.
abbrev pub HasUpstream : String → List (String × HostConfig) → Type 0
HasUpstream name [] = ⊥
HasUpstream name ((host, host_config) ∷ rest) =
    ((host ≡ name) × (u : UpstreamConfig) × (host_config.upstream ≡ some u)) ⊎ HasUpstream name rest

module _ (tree : PathTree (CacheRouteRule × String)) where
  -- The cache has the key `name`, and metrics for all that its routes can match.
  abbrev pub IsOwn : String → Cache tree → Type 0
  IsOwn name cache =
      (routes : CacheRoutes tree) × (cache ≡ new_cache tree name routes) × IsTied tree routes

  -- Every cache is its host's own, and has an upstream.
  pub record Wired (server : Server tree) : Type 0 where
    pub general :
        (cache : Cache tree)
        → server.state.upstream ≡ some cache
        → IsOwn "**" cache × ((u : Upstream) × (server.upstream ≡ some u))
    pub own :
        (name : String) (cache : Cache tree)
        → index server.state.host_upstreams name ≡ some cache
        → IsOwn name cache × ((u : Upstream) × (index server.host_upstreams name ≡ some u))

  pub insert_host-Wired :
      (host : String) (routes : CacheRoutes tree) (u : Upstream) (server : Server tree)
      → IsTied tree routes
      → Wired server
      → Wired (insert_host tree host routes u server)
  unfolding insert_host
  insert_host-Wired host routes u server tied w = record {
    general = w.general;
    own = λ name cache e. elim (Bool-cases (str_eq host name)) [
      | inl same ↦
          let is : host ≡ name = (eq_iff host name).0 same in
          let found : some (new_cache tree host routes) ≡ some cache =
            sym (
              index-insert_entry host name (new_cache tree host routes) server.state.host_upstreams
              ∙ rw same)
            ∙ e in
          (
            (routes, sym (cc found) ∙ ap (λ n. new_cache tree n routes) is, tied),
            (u, index-insert_entry host name u server.host_upstreams ∙ rw same),
          )
      | inr other ↦
          let (its, (v, built)) = w.own name cache (
            sym (
              index-insert_entry host name (new_cache tree host routes) server.state.host_upstreams
              ∙ rw other)
            ∙ e) in
          (its, (v, index-insert_entry host name u server.host_upstreams ∙ rw other built))
    ];
  }

  -- A host that has a cache still has one, and so has the new one.
  pub insert_host-has :
      (host : String) (routes : CacheRoutes tree) (u : Upstream) (server : Server tree)
      (name : String)
      → (host ≡ name)
        ⊎ ((cache : Cache tree) × (index server.state.host_upstreams name ≡ some cache))
      → (cache : Cache tree) × (index
            (insert_host tree host routes u server).state.host_upstreams
            name
          ≡ some cache)
  unfolding insert_host
  insert_host-has host routes u server name had = elim (Bool-cases (str_eq host name)) [
    | inl same ↦ (
      new_cache tree host routes,
      index-insert_entry host name (new_cache tree host routes) server.state.host_upstreams
          ∙ rw same,
    )
    | inr other ↦ elim had [
      | inl is ↦ absurd (cc ((eq_iff host name).1 is, other))
      | inr (cache, e) ↦ (
        cache,
        index-insert_entry host name (new_cache tree host routes) server.state.host_upstreams
            ∙ rw other e,
      )
    ]
  ]

  pub Wired-AreMade : (server : Server tree) → Wired server → AreMade tree server.state
  unfolding cache_for_host
  Wired-AreMade server w none cache e =
      let (routes, is, tied) = (w.general cache e).0 in ("**", routes, is, tied)
  Wired-AreMade server w (some name) cache e =
      elim (Option-cases (index server.state.host_upstreams name)) [
        | inl unknown ↦
            let general : server.state.upstream ≡ some cache =
              sym (rw (unknown, cache_for_host)) ∙ e in
            let (routes, is, tied) = (w.general cache general).0 in ("**", routes, is, tied)
        | inr (own, known) ↦
            let found : some own ≡ some cache = sym (rw (known, cache_for_host)) ∙ e in
            let (routes, is, tied) = (w.own name cache (known ∙ found)).0 in
            (name, routes, is, tied)
      ]
