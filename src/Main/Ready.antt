-- ===== src/Main/Ready.antt =====
-- What the start of the server makes.
use server.Cache.{
  Cache, CacheStorage, CachedResourceKey, CachedResourceKey-discrete, index, new_cache,
}
use server.Config.{Config, HostConfig, UpstreamConfig}
use server.Lru.{LruCache}
use server.Main.Start.{
  Server, add_hosts, default_server, ensure_upstream, insert_host, is_empty, is_none, new_server,
  unwrap_or,
}
use server.Main.Upstreams.{Clients, build_upstream}
use server.Pool.{u64_mod}
use server.Prelude.{
  ℕ, ◌+◌, ◌<◌, ◌≡◌, ◌⊎◌, refl, ◌∙◌, inl, inr, String, none, some, List, [], ◌∷◌, max, ◌&&◌, Result,
  ok, err, Run, done, Bool-cases, Option-cases, Result-cases,
}
use server.Routes.{PathTree, CacheRouteRule, CacheRoutes}
use server.Routes.Matching.{IsTied, from_config-Explained}
use server.Setup.{Limits}
use server.Setup.Valid.{Increases, IsReady, new_storage-Made}
use server.Main.Settings.{FromHosts, Settled, add_hosts-Settled, default_server-Settled}
use server.Main.Wired.{HasUpstream, Wired, insert_host-Wired, insert_host-has}

module _ (tree : PathTree (CacheRouteRule × String)) where
  -- What the loop over some hosts makes of a server.
  abbrev Added :
      List (String × HostConfig) → Server tree → Run (Result String (Server tree)) → Type 0
  Added hosts server result =
      ((error : String) × (result ≡ done (err error)))
      ⊎ ((all : Server tree) × (result ≡ done (ok all))
          × Wired tree all
          × (all.state.upstream ≡ server.state.upstream)
          × ((name : String)
              → HasUpstream name hosts
                ⊎ ((cache : Cache tree) × (index server.state.host_upstreams name ≡ some cache))
              → (cache : Cache tree) × (index all.state.host_upstreams name ≡ some cache)))

  add_hosts-Added :
      (clients : Clients) (config : Config) (hosts : List (String × HostConfig))
      (server : Server tree)
      → Wired tree server
      → Added hosts server (add_hosts tree clients config hosts server)
  unfolding add_hosts
  add_hosts-Added clients config [] server w = inr (
    server,
    refl,
    w,
    refl,
    λ name had. elim had [ inl none_left ↦ absurd none_left | inr has ↦ has ],
  )
  add_hosts-Added clients config ((host, host_config) ∷ rest) server w =
      let (routes, ran, tied, _) =
        from_config-Explained tree (unwrap_or host_config.cache config.cache)
          (unwrap_or host_config.routes config.routes) in
      elim (Option-cases host_config.upstream) [
        | inl unset ↦ elim (add_hosts-Added clients config rest server w) [
          | inl (error, failed) ↦ inl (error, rw (ran, add_hosts) (rw unset failed))
          | inr (all, made, wired, same, has) ↦ inr (
            all,
            rw (ran, add_hosts) (rw unset made),
            wired,
            same,
            λ name had. has name (elim had [
              | inr before ↦ inr before
              | inl which ↦ elim which [
                | inl (is, u, e) ↦ absurd (cc (unset, e))
                | inr later ↦ inl later
              ]
            ]),
          )
        ]
        | inr (upstream_config, set) ↦
            elim (Result-cases (build_upstream clients upstream_config)) [
              | inr (error, failed) ↦ inl (error, rw (ran, add_hosts) (rw set (rw failed)))
              | inl (u, built) ↦
                  let server' = insert_host tree host routes u server in
                  elim (add_hosts-Added clients config rest server'
                    (insert_host-Wired tree host routes u server tied w)) [
                      | inl (error, failed) ↦
                          inl (error, rw (ran, add_hosts) (rw set (rw built failed)))
                      | inr (all, made, wired, same, has) ↦ inr (
                        all,
                        rw (ran, add_hosts) (rw set (rw built made)),
                        wired,
                        same,
                        λ name had. has name (elim had [
                          | inr before ↦
                              inr (insert_host-has tree host routes u server name (inr before))
                          | inl which ↦ elim which [
                            | inl (is, v, e) ↦
                                inr (insert_host-has tree host routes u server name (inl is))
                            | inr later ↦ inl later
                          ]
                        ]),
                      )
                    ]
            ]
      ]

  -- The server before its hosts.
  default-Wired :
      (clients : Clients) (config : Config) (routes : CacheRoutes tree)
      → IsTied tree routes
      → ((error : String) × (default_server tree clients config routes ≡ err error))
        ⊎ ((server : Server tree) × (default_server tree clients config routes ≡ ok server)
            × Wired tree server
            × ((u : UpstreamConfig)
                → config.upstream ≡ some u
                → (cache : Cache tree) × (server.state.upstream ≡ some cache)))
  unfolding default_server index
  default-Wired clients config routes tied = elim (Option-cases config.upstream) [
    | inl unset ↦ inr (
      record {
        state = record { upstream = none; host_upstreams = []; metadata = config.metadata };
        upstream = none;
        host_upstreams = [];
      },
      rw (unset, default_server),
      record { general = λ cache e. absurd (cc); own = λ name cache e. absurd (cc) },
      λ u e. absurd (cc (unset, e)),
    )
    | inr (upstream_config, set) ↦ elim (Result-cases (build_upstream clients upstream_config)) [
      | inr (error, failed) ↦ inl (error, rw (set, default_server) (rw failed))
      | inl (u, built) ↦ inr (
        record {
          state = record {
            upstream = some (new_cache tree "**" routes);
            host_upstreams = [];
            metadata = config.metadata;
          };
          upstream = some u;
          host_upstreams = [];
        },
        rw (set, default_server) (rw built),
        record {
          general = λ cache e. ((routes, cc, tied), (u, refl));
          own = λ name cache e. absurd (cc);
        },
        λ v e. (new_cache tree "**" routes, refl),
      )
    ]
  ]

  module _ (lru : LruCache CachedResourceKey ℕ CachedResourceKey-discrete) where
    -- The server that a call made, with its storage, or the error that it returned.
    abbrev pub Started :
        Clients → Config → Run (Result String (Server tree × CacheStorage lru)) → Type 0
    Started clients config result =
        ((error : String) × (result ≡ done (err error)))
        ⊎ ((server : Server tree) × (storage : CacheStorage lru) × (result
              ≡ done (ok (server, storage)))
            × IsReady lru config.storage storage
            × Wired tree server
            × Settled tree clients config (FromHosts tree clients config config.hosts) server
            × ((u : UpstreamConfig)
                → config.upstream ≡ some u
                → (cache : Cache tree) × (server.state.upstream ≡ some cache))
            × ((name : String)
                → HasUpstream name config.hosts
                → (cache : Cache tree) × (index server.state.host_upstreams name ≡ some cache)))

    -- The start of the server ends without a panic, if no maximal number of files is configured,
    -- the least numbers of files have a sum below 2^64, and raising the limit on open files to a
    -- number within the hard limit gives no less than that: with an error, or with a valid storage
    -- and a state in which every cache has its host's name as its key (the default one "**") and
    -- metrics for all patterns of its routes. A host's cache and upstream are built of the settings
    -- of a configured host with that name: its own upstream, and its own routes and cache settings
    -- where it has them, else the general ones. The default cache and upstream are built of the
    -- general settings. The default upstream and every configured host with an upstream then have a
    -- cache.
    pub new_server-Started :
        (limits : Limits) (clients : Clients) (config : Config)
        → Increases lru limits
        → config.storage.max_cache_files ≡ none
        → config.storage.min_non_cache_files + max config.storage.min_cache_files 1 < u64_mod
        → Started clients config (new_server tree lru limits clients config)
    unfolding new_server
    new_server-Started limits clients config increases unset fits =
        let (routes, ran, tied, _) = from_config-Explained tree config.cache config.routes in
        let from = FromHosts tree clients config config.hosts in
        elim (new_storage-Made lru limits config.storage increases unset fits) [
          | inl (error, failed) ↦ inl (error, rw (failed, new_server))
          | inr (storage, stored, ready) ↦ elim (default-Wired clients config routes tied) [
            | inl (error, failed) ↦ inl (error, rw (stored, new_server) (rw ran (rw failed)))
            | inr (server, made, wired, general) ↦
                elim (add_hosts-Added clients config config.hosts server wired) [
                  | inl (error, failed) ↦
                      inl (error, rw (stored, new_server) (rw ran (rw made (rw failed))))
                  | inr (all, added, wired', same, has) ↦
                      elim (Bool-cases (
                        is_none tree all.state.upstream
                        && is_empty tree all.state.host_upstreams)) [
                          | inl nothing ↦ inl (
                            "no upstreams configured",
                            rw (stored, new_server)
                                (rw ran (rw made (rw added (rw (nothing, ensure_upstream))))),
                          )
                          | inr something ↦ inr (
                            all,
                            storage,
                            rw (stored, new_server)
                                (rw ran (rw made (rw added (rw (something, ensure_upstream))))),
                            ready,
                            wired',
                            add_hosts-Settled tree clients config from config.hosts server all
                                (λ name cache u h. h)
                                (default_server-Settled tree clients config from routes server ran
                                  made)
                                added,
                            λ u e. let (cache, is) = general u e in (cache, same ∙ is),
                            λ name h. has name (inl h),
                          )
                        ]
                ]
          ]
        ]
