-- ===== src/Main/Settings.antt =====
-- src/main.rs, `main`: the settings that the caches of the server come from.
use text.Mathlib.Text.{◌==◌ as str_eq}
use text.Mathlib.TextEquality.{eq_iff}
use server.Cache.{Cache, index, new_cache}
use server.Config.{CacheConfig, Config, HostConfig, RouteConfig, UpstreamConfig}
use server.Main.Start.{Server, add_hosts, default_server, insert_host, unwrap_or}
use server.Main.Upstreams.{Clients, build_upstream}
use server.Main.Wired.{index-insert_entry}
use server.Prelude.{
  ◌≡◌, ◌⊎◌, refl, sym, ◌∙◌, subst, inl, inr, String, Option, none, some, List, [], ◌∷◌, ok, err,
  done, Bool-cases, Option-cases, Result-cases,
}
use server.Routes.{PathTree, CacheRouteRule, CacheRoutes, from_config}
use server.Routes.Matching.{from_config-Explained}
use server.Upstream.{Upstream}

-- A setting of a host stands before the general one.
abbrev pub Chosen : {A : Type 0} → Option A → A → A → Type 0
Chosen none general a = a ≡ general
Chosen (some own) general a = a ≡ own

unwrap_or-Chosen :
    {A : Type 0} (own : Option A) (general : A) → Chosen own general (unwrap_or own general)
unwrap_or-Chosen none general = refl
unwrap_or-Chosen (some own) general = refl

module _ (tree : PathTree (CacheRouteRule × String)) (clients : Clients) where
  -- A cache with that key, and its upstream, were built of these settings.
  abbrev pub IsFrom :
      String
      → Option UpstreamConfig
      → CacheConfig
      → List (String × RouteConfig)
      → Cache tree
      → Upstream
      → Type 0
  IsFrom key upstream config routes_config cache u =
      (upstream_config : UpstreamConfig) × (upstream ≡ some upstream_config)
      × (build_upstream clients upstream_config ≡ ok u)
      × (routes : CacheRoutes tree) × (from_config tree config routes_config ≡ done routes)
      × (cache ≡ new_cache tree key routes)

  -- They were built of the settings of a host with that name: its own upstream, and its own routes
  -- and cache settings where it has them, else the general ones.
  abbrev pub FromHosts :
      Config → List (String × HostConfig) → String → Cache tree → Upstream → Type 0
  FromHosts config [] name cache u = ⊥
  FromHosts config ((host, host_config) ∷ rest) name cache u =
      ((host ≡ name)
        × (c : CacheConfig) × (rs : List (String × RouteConfig)) × Chosen host_config.cache
            config.cache c
        × Chosen host_config.routes config.routes rs
        × IsFrom name host_config.upstream c rs cache u)
      ⊎ FromHosts config rest name cache u

  -- The default cache was built of the general settings, and those of the hosts are as `Q` says.
  pub record Settled (config : Config) (Q : String → Cache tree → Upstream → Type 0)
      (server : Server tree) : Type 0 where
    pub general :
        (cache : Cache tree)
        → server.state.upstream ≡ some cache
        → (u : Upstream) × (server.upstream ≡ some u)
          × IsFrom "**" config.upstream config.cache config.routes cache u
    pub own :
        (name : String) (cache : Cache tree)
        → index server.state.host_upstreams name ≡ some cache
        → (u : Upstream) × (index server.host_upstreams name ≡ some u) × Q name cache u

  insert_host-Settled :
      (config : Config) (Q : String → Cache tree → Upstream → Type 0) (host : String)
      (routes : CacheRoutes tree) (u : Upstream) (server : Server tree)
      → Q host (new_cache tree host routes) u
      → Settled config Q server
      → Settled config Q (insert_host tree host routes u server)
  unfolding insert_host
  insert_host-Settled config Q host routes u server q settled =
      let made = new_cache tree host routes in
      let caches = server.state.host_upstreams in
      record {
        general = settled.general;
        own = λ name cache e. elim (Bool-cases (str_eq host name)) [
          | inl same ↦
              let found : some made ≡ some cache =
                sym (index-insert_entry host name made caches ∙ rw same) ∙ e in
              (
                u,
                index-insert_entry host name u server.host_upstreams ∙ rw same,
                subst (λ c. Q name c u) (cc found)
                    (subst (λ n. Q n made u) ((eq_iff host name).0 same) q),
              )
          | inr other ↦
              let (v, built, its) =
                settled.own name cache
                  (sym (index-insert_entry host name made caches ∙ rw other) ∙ e) in
              (v, index-insert_entry host name u server.host_upstreams ∙ rw other built, its)
        ];
      }

  pub add_hosts-Settled :
      (config : Config) (Q : String → Cache tree → Upstream → Type 0)
      (hosts : List (String × HostConfig)) (server all : Server tree)
      → ((name : String) (cache : Cache tree) (u : Upstream)
          → FromHosts config hosts name cache u
          → Q name cache u)
      → Settled config Q server
      → add_hosts tree clients config hosts server ≡ done (ok all)
      → Settled config Q all
  unfolding add_hosts
  add_hosts-Settled config Q [] server all from settled added =
      let is : server ≡ all = cc added in subst (Settled config Q) is settled
  add_hosts-Settled config Q ((host, host_config) ∷ rest) server all from settled added =
      let c = unwrap_or host_config.cache config.cache in
      let rs = unwrap_or host_config.routes config.routes in
      let (routes, ran, _, _) = from_config-Explained tree c rs in
      let later =
        λ (name : String) (cache : Cache tree) (u : Upstream)
            (h : FromHosts config rest name cache u).
          from name cache u (inr h) in
      elim (Option-cases host_config.upstream) [
        | inl unset ↦
            add_hosts-Settled config Q rest server all later settled
              (sym (rw (ran, add_hosts) (rw unset refl)) ∙ added)
        | inr (upstream_config, set) ↦
            elim (Result-cases (build_upstream clients upstream_config)) [
              | inr (error, failed) ↦
                  let fails : add_hosts tree clients config ((host, host_config) ∷ rest) server
                      ≡ done (err error) =
                    rw (ran, add_hosts) (rw set (rw failed refl)) in
                  absurd (cc (added, fails))
              | inl (u, built) ↦
                  let q = from host (new_cache tree host routes) u (
                    inl (
                      refl,
                      c,
                      rs,
                      unwrap_or-Chosen host_config.cache config.cache,
                      unwrap_or-Chosen host_config.routes config.routes,
                      (upstream_config, set, built, routes, ran, refl),
                    )) in
                  add_hosts-Settled config Q rest (insert_host tree host routes u server) all later
                    (insert_host-Settled config Q host routes u server q settled)
                    (sym (rw (ran, add_hosts) (rw set (rw built refl))) ∙ added)
            ]
      ]

  pub default_server-Settled :
      (config : Config) (Q : String → Cache tree → Upstream → Type 0) (routes : CacheRoutes tree)
      (server : Server tree)
      → from_config tree config.cache config.routes ≡ done routes
      → default_server tree clients config routes ≡ ok server
      → Settled config Q server
  unfolding default_server index
  default_server-Settled config Q routes server ran made = elim (Option-cases config.upstream) [
    | inl unset ↦
        let empty : Server tree = record {
          state = record { upstream = none; host_upstreams = []; metadata = config.metadata };
          upstream = none;
          host_upstreams = [];
        } in
        let before : default_server tree clients config routes ≡ ok empty =
          rw (unset, default_server) refl in
        let is : empty ≡ server = cc (before, made) in
        subst (Settled config Q) is
          (record { general = λ cache e. absurd (cc e); own = λ name cache e. absurd (cc e) })
    | inr (upstream_config, set) ↦ elim (Result-cases (build_upstream clients upstream_config)) [
      | inr (error, failed) ↦
          let before : default_server tree clients config routes ≡ err error =
            rw (set, default_server) (rw failed refl) in
          absurd (cc (before, made))
      | inl (u, built) ↦
          let one : Server tree = record {
            state = record {
              upstream = some (new_cache tree "**" routes);
              host_upstreams = [];
              metadata = config.metadata;
            };
            upstream = some u;
            host_upstreams = [];
          } in
          let before : default_server tree clients config routes ≡ ok one =
            rw (set, default_server) (rw built refl) in
          let is : one ≡ server = cc (before, made) in
          subst (Settled config Q) is (record {
            general = λ cache e. (u, refl, (upstream_config, set, built, routes, ran, sym (cc e)));
            own = λ name cache e. absurd (cc e);
          })
    ]
  ]
