-- ===== src/Main/Start.antt =====
-- src/main.rs, `main`: the caches that the configuration asks for, and the state of the server.
use text.Mathlib.Text.{◌==◌ as str_eq}
use server.App.{AppState}
use server.Cache.{CacheStorage, CachedResourceKey, CachedResourceKey-discrete, new_cache}
use server.Config.{Config, HostConfig}
use server.Lru.{LruCache}
use server.Main.Upstreams.{Clients, build_upstream}
use server.Prelude.{
  ℕ, String, Option, none, some, List, [], ◌∷◌, Bool, true, false, ◌&&◌, if◌then◌else◌, Result, ok,
  err, Run, done, panic, stuck, ◌>>=◌,
}
use server.Routes.{PathTree, CacheRouteRule, CacheRoutes, from_config}
use server.Setup.{Limits, new_storage}
use server.Upstream.{Upstream}

-- `HashMap::insert`, on the list of the entries.
unfoldable pub insert_entry {ℓ} : {A : Type ℓ} → String → A → List (String × A) → List (String × A)
insert_entry k a [] = (k, a) ∷ []
insert_entry k a ((j, b) ∷ rest) =
    if str_eq j k then (k, a) ∷ rest else (j, b) ∷ insert_entry k a rest

abbrev pub unwrap_or {ℓ} : {A : Type ℓ} → Option A → A → A
unwrap_or none d = d
unwrap_or (some a) d = a

-- The operator `?` of a function that may panic.
abbrev pub or_return :
    {E A B : Type 0} → Run (Result E A) → (A → Run (Result E B)) → Run (Result E B)
or_return panic f = panic
or_return stuck f = stuck
or_return (done (err e)) f = done (err e)
or_return (done (ok a)) f = f a

module _ (tree : PathTree (CacheRouteRule × String)) where
  -- The state, with the upstream that each cache was given.
  pub record Server : Type 0 where
    pub state : AppState tree
    pub upstream : Option Upstream
    pub host_upstreams : List (String × Upstream)

  -- The default cache, under the key "**".
  unfoldable pub default_server : Clients → Config → CacheRoutes tree → Result String Server
  unfolding new_cache
  default_server clients config routes = elim config.upstream [
    | none ↦ ok (record {
      state = record { upstream = none; host_upstreams = []; metadata = config.metadata };
      upstream = none;
      host_upstreams = [];
    })
    | some upstream_config ↦ elim (build_upstream clients upstream_config) [
      | err error ↦ err error
      | ok upstream ↦ ok (record {
        state = record {
          upstream = some (new_cache tree "**" routes);
          host_upstreams = [];
          metadata = config.metadata;
        };
        upstream = some upstream;
        host_upstreams = [];
      })
    ]
  ]

  unfoldable pub insert_host : String → CacheRoutes tree → Upstream → Server → Server
  unfolding insert_entry new_cache
  insert_host host routes upstream server = record server {
    state = record server.state {
      host_upstreams = insert_entry host (new_cache tree host routes) server.state.host_upstreams;
    };
    host_upstreams = insert_entry host upstream server.host_upstreams;
  }

  -- The loop over the hosts. A host's own cache and routes come before the general ones; a host
  -- with no upstream gets no cache.
  unfoldable pub add_hosts :
      Clients → Config → List (String × HostConfig) → Server → Run (Result String Server)
  unfolding insert_host from_config
  add_hosts clients config [] server = done (ok server)
  add_hosts clients config ((host, host_config) ∷ rest) server =
      from_config tree (unwrap_or host_config.cache config.cache)
        (unwrap_or host_config.routes config.routes)
      >>= λ routes. elim host_config.upstream [
        | none ↦ add_hosts clients config rest server
        | some upstream_config ↦ elim (build_upstream clients upstream_config) [
          | err error ↦ done (err error)
          | ok upstream ↦ add_hosts clients config rest (insert_host host routes upstream server)
        ]
      ]

  abbrev pub is_none {ℓ} : {A : Type ℓ} → Option A → Bool
  is_none none = true
  is_none (some a) = false

  abbrev pub is_empty {ℓ} : {A : Type ℓ} → List A → Bool
  is_empty [] = true
  is_empty (x ∷ xs) = false

  -- The `ensure!` after the loop.
  unfoldable pub ensure_upstream : Server → Result String Server
  ensure_upstream server =
      if is_none server.state.upstream && is_empty server.state.host_upstreams
      then err "no upstreams configured"
      else ok server

  module _ (lru : LruCache CachedResourceKey ℕ CachedResourceKey-discrete) where
    unfoldable pub new_server :
        Limits → Clients → Config → Run (Result String (Server × CacheStorage lru))
    unfolding new_storage from_config default_server add_hosts ensure_upstream
    new_server limits clients config = or_return (new_storage lru limits config.storage) λ storage.
        from_config tree config.cache config.routes >>= λ routes.
        or_return (done (default_server clients config routes)) λ server.
          or_return (add_hosts clients config config.hosts server)
            λ all. or_return (done (ensure_upstream all)) λ checked. done (ok (checked, storage))
