-- ===== src/Main/Serve.antt =====
-- From the start of the server through any sequence of requests, one after the other.
use server.App.{AppError, HttpResponse, Request, Headers, get_resource}
use server.App.Served.{ClockAdds, get_resource-Served}
use server.Cache.Claim.{IsValid}
use server.Cache.{CacheStorage, CachedResourceKey, CachedResourceKey-discrete, Outside}
use server.Config.{Config}
use server.Lru.{LruCache, OnceCell}
use server.Main.Ready.{new_server-Started}
use server.Main.Wired.{Wired, Wired-AreMade}
use server.Main.Start.{Server, new_server}
use server.Main.Upstreams.{Clients}
use server.Pool.{u64_mod}
use server.Prelude.{
  suc, ℕ, ◌+◌, ◌<◌, ◌≡◌, refl, ap, subst, inl, inr, max, String, All, none, List, [], ◌∷◌, length,
  Result, ok, Run, done, ◌>>=◌,
}
use server.Routes.{PathTree, CacheRouteRule}
use server.Setup.{Limits}
use server.Setup.Valid.{Increases}

-- A request, with what it meets outside the program and when it comes.
pub record Visit : Type 0 where
  pub request : Request
  pub outside : Outside
  pub now : ℕ

module _ (tree : PathTree (CacheRouteRule × String))
    (lru : LruCache CachedResourceKey ℕ CachedResourceKey-discrete) (once : OnceCell)
    (headers : Headers) where
  -- The clock can add, then, the age of the rule that the path matches for the host.
  abbrev pub CanAdd : Server tree → Visit → Type 0
  CanAdd server v = ClockAdds tree v.outside v.now server.state v.request

  -- The handler, for one request after the other on the storage that the last one left.
  unfoldable pub serve_all :
      Server tree
      → List Visit
      → CacheStorage lru
      → Run (List (Result AppError HttpResponse) × CacheStorage lru)
  unfolding get_resource
  serve_all server [] s = done ([], s)
  serve_all server (v ∷ visits) s = do
    (result, s1) ← get_resource tree lru once headers server.state v.request v.outside v.now s
    (results, s2) ← serve_all server visits s1
    done (result ∷ results, s2)

  serve_all-valid :
      {capacity : ℕ} (server : Server tree) (visits : List Visit) (s : CacheStorage lru)
      → capacity < u64_mod
      → Wired tree server
      → All (CanAdd server) visits
      → IsValid lru capacity s
      → (results : List (Result AppError HttpResponse)) × (s' : CacheStorage lru) × (serve_all
            server visits s
          ≡ done (results, s'))
        × (length results ≡ length visits)
        × IsValid lru capacity s'
  unfolding serve_all
  serve_all-valid server [] s bounded w clocks valid = ([], s, refl, refl, valid)
  serve_all-valid {capacity} server (v ∷ visits) s bounded w (clock, clocks) valid =
      let (result, s1, ran, valid1, _) =
        get_resource-Served tree lru once headers v.outside v.now capacity server.state v.request s
          bounded clock (Wired-AreMade tree server w) valid in
      let (results, s2, ran', same, valid2) =
        serve_all-valid server visits s1 bounded w clocks valid1 in
      (result ∷ results, s2, rw (ran, serve_all) (rw ran' refl), ap (λ n. suc n) same, valid2)

  -- If no maximal number of files is configured, the least numbers of files have a sum below
  -- 2^64, raising the limit on open files to a number within the hard limit gives no less than
  -- that, the capacity is below 2^64 and the clocks can add the ages of the rules that the
  -- requests match, a server that starts answers every sequence of requests, one after the other:
  -- each gets its answer, with no panic, and the storage is valid after them.
  pub new_server-serve_all :
      (limits : Limits) (clients : Clients) (config : Config) (server : Server tree)
      (storage : CacheStorage lru) (visits : List Visit)
      → Increases lru limits
      → config.storage.max_cache_files ≡ none
      → config.storage.min_non_cache_files + max config.storage.min_cache_files 1 < u64_mod
      → config.storage.max_disk_capacity < u64_mod
      → new_server tree lru limits clients config ≡ done (ok (server, storage))
      → All (CanAdd server) visits
      → (results : List (Result AppError HttpResponse)) × (s' : CacheStorage lru) × (serve_all
            server visits storage
          ≡ done (results, s'))
        × (length results ≡ length visits)
        × IsValid lru config.storage.max_disk_capacity s'
  new_server-serve_all limits clients config server storage visits increases unset fits bounded ran
        clocks =
      elim (new_server-Started tree lru limits clients config increases unset fits) [
        | inl (error, failed) ↦ absurd (cc (ran, failed))
        | inr (server', storage', started, ready, wired, _, _, _) ↦
            let is : server' ≡ server = cc (started, ran) in
            let its : storage' ≡ storage = cc (started, ran) in
            serve_all-valid server visits storage bounded (subst (Wired tree) is wired) clocks
              (subst (IsValid lru config.storage.max_disk_capacity) its ready.0)
      ]
