-- ===== src/Tasks/Filled.antt =====
-- src/cache.rs, `get_or_try_init` in `Cache::get`: how a request by itself fills its cell.
use mathlib.Core.Path.{fun_ext}
use server.Cache.Fill.{Filled, fetched, fill-Filled, store_file-run, fill-stored}
use server.Cache.Invariant.{Books}
use server.Cache.Front.{set_cell-same}
use server.Cache.Space.{reserve_space-Made}
use server.Cache.{
  reserve_space, Cache, CacheStorage, CachedResource, CachedResourceKey, CachedResourceKey-discrete,
  Outside, emit, fill, fill_cell, rounds, set_cell, store_file,
}
use server.Lru.{LruCache, OnceCell}
use server.Metrics.{CacheRouteMetrics}
use server.Pool.{CacheCapacityReservation, u64_mod}
use server.Prelude.{
  ℕ, ◌<◌, ◌≡◌, refl, sym, ap, ◌∙◌, subst, inl, inr, Option, none, some, List, length, arith, String,
  Option-cases, Result, Result-cases, ok, err, done,
}
use server.Routes.{PathTree, CacheRouteRule}
use server.Tasks.Defs.{Job}
use server.Tasks.Invariant.{entries}
use server.Tasks.Steps.{new_resource, store}
use server.Upstream.{UpstreamError, UpstreamResource, UpstreamResourceHeaders}

module _ (tree : PathTree (CacheRouteRule × String))
    (lru : LruCache CachedResourceKey ℕ CachedResourceKey-discrete) (once : OnceCell)
    (cache : Cache tree) (outside : Outside) (m : CacheRouteMetrics) (path : String) (now : ℕ)
    (expires_after : Option ℕ) where
  -- The job of the request.
  abbrev pub job : Job
  job = record {
    key = record { host = cache.host_key; path = path };
    now = now;
    expires_after = expires_after;
    handles = cache.handles;
    route_metrics = m;
    outside = outside;
  }

  abbrev with_cell : ℕ → Option CachedResource → CacheStorage lru → CacheStorage lru
  with_cell c contents s = record s { cells = set_cell s.cells c contents }

  with_cell-same :
      (c : ℕ) (o : Option CachedResource) (s : CacheStorage lru)
      → s.cells c ≡ o
      → with_cell c o s ≡ s
  with_cell-same c o s e =
      ap (λ (y : ℕ → Option CachedResource). record s { cells = y })
        (fun_ext (λ d.
          ap (λ (x : Option CachedResource). set_cell s.cells c x d) (sym e)
          ∙ set_cell-same s.cells c d))

  fill_cell-run :
      (c : ℕ) (s s' : CacheStorage lru) (contents : Option CachedResource)
      (result : Result (Option UpstreamError) CachedResource)
      → once.get_or_try_init
          (s.cells c)
          (fill tree lru once cache outside expires_after (outside.upstream path))
          s
        ≡ done (result, contents, s')
      → fill_cell tree lru once cache outside path expires_after c s
        ≡ done (result, with_cell c contents s')
  unfolding fill_cell
  fill_cell-run c s s' contents result ran = rw (ran, fill_cell) refl

  abbrev pub upstream_answer : Result UpstreamError (Option UpstreamResource)
  upstream_answer = outside.upstream path

  -- How the cell comes to its result, and what it leaves.
  pub data FillsAs (c : ℕ) (s : CacheStorage lru)
      : Result (Option UpstreamError) CachedResource → CacheStorage lru → Type 0 where
    has : (r : CachedResource) → s.cells c ≡ some r → FillsAs c s (ok r) s
    fails :
        (error : Option UpstreamError)
        → s.cells c ≡ none
        → fetched outside s.cache_dir upstream_answer ≡ err error
        → FillsAs c s (err error) s
    stores :
        (headers : UpstreamResourceHeaders) (file : List ℕ) (reservation : CacheCapacityReservation)
        (s1 : CacheStorage lru)
        → s.cells c ≡ none
        → fetched outside s.cache_dir upstream_answer ≡ ok (headers, file)
        → reserve_space lru (rounds lru s) (length file) s ≡ done (reservation, s1)
        → FillsAs c s
            (ok (new_resource job headers file reservation))
            (store lru job c headers file reservation s1).1

  module _ {capacity : ℕ} (bounded : capacity < u64_mod) where
    fill-ok :
        (a : Result UpstreamError (Option UpstreamResource)) (s s' : CacheStorage lru)
        (headers : UpstreamResourceHeaders) (file : List ℕ) (r : CachedResource)
        → fetched outside s.cache_dir a ≡ ok (headers, file)
        → store_file lru outside cache.handles outside.new_v4 expires_after headers file s
          ≡ done (r, s')
        → fill tree lru once cache outside expires_after a s ≡ done (ok r, s')
    unfolding fetched
    fill-ok (err error) s s' headers file r got stored = absurd (cc got)
    fill-ok (ok none) s s' headers file r got stored = absurd (cc got)
    fill-ok (ok (some resource)) s s' headers file r got stored =
        fill-stored tree lru once bounded cache outside expires_after resource s headers file r s'
          got stored

    has-ran :
        (c : ℕ) (s : CacheStorage lru) (r : CachedResource)
        → s.cells c ≡ some r
        → fill_cell tree lru once cache outside path expires_after c s ≡ done (ok r, s)
    has-ran c s r full =
        fill_cell-run c s s (some r) (ok r) (
          ap
            (λ o.
              once.get_or_try_init o
                (fill tree lru once cache outside expires_after upstream_answer) s)
            full
          ∙ once.init_filled r _ s)
        ∙ ap (λ (y : CacheStorage lru). done (ok r, y)) (with_cell-same c (some r) s full)

    fails-ran :
        (c : ℕ) (s : CacheStorage lru) (error : Option UpstreamError)
        → Books lru capacity none (entries lru s) s
        → s.cells c ≡ none
        → fetched outside s.cache_dir upstream_answer ≡ err error
        → fill_cell tree lru once cache outside path expires_after c s ≡ done (err error, s)
    unfolding Filled
    fails-ran c s error books empty failed =
        let ran : fill tree lru once cache outside expires_after upstream_answer s
            ≡ done (err error, s) =
          subst (Filled tree lru once bounded cache outside expires_after upstream_answer s) failed
            (fill-Filled tree lru once bounded cache outside expires_after upstream_answer s
              books) in
        fill_cell-run c s s none (err error) (
          ap
            (λ o.
              once.get_or_try_init o
                (fill tree lru once cache outside expires_after upstream_answer) s)
            empty
          ∙ once.init_err _ s error s ran)
        ∙ ap (λ (y : CacheStorage lru). done (err error, y)) (with_cell-same c none s empty)

    stores-ran :
        (c : ℕ) (s s1 : CacheStorage lru) (headers : UpstreamResourceHeaders) (file : List ℕ)
        (reservation : CacheCapacityReservation)
        → s.cells c ≡ none
        → fetched outside s.cache_dir upstream_answer ≡ ok (headers, file)
        → reserve_space lru (rounds lru s) (length file) s ≡ done (reservation, s1)
        → fill_cell tree lru once cache outside path expires_after c s
          ≡ done (
            ok (new_resource job headers file reservation),
            (store lru job c headers file reservation s1).1,
          )
    unfolding store emit
    stores-ran c s s1 headers file reservation empty got room =
        let r = new_resource job headers file reservation in
        let ran = fill-ok upstream_answer s _ headers file r got (
          store_file-run lru outside cache.handles expires_after headers file s s1 reservation
            room) in
        fill_cell-run c s _ (some r) (ok r) (
          ap
            (λ o.
              once.get_or_try_init o
                (fill tree lru once cache outside expires_after upstream_answer) s)
            empty
          ∙ once.init_ok _ s r _ ran)

    -- The cell is filled, in one of the three ways.
    pub fill_cell-FillsAs :
        (c : ℕ) (s : CacheStorage lru)
        → Books lru capacity none (entries lru s) s
        → (result : Result (Option UpstreamError) CachedResource) × (s' : CacheStorage lru)
          × (fill_cell tree lru once cache outside path expires_after c s ≡ done (result, s'))
          × FillsAs c s result s'
    fill_cell-FillsAs c s books = elim (Option-cases (s.cells c)) [
      | inr (r, full) ↦ (ok r, s, has-ran c s r full, has r full)
      | inl empty ↦ elim (Result-cases (fetched outside s.cache_dir upstream_answer)) [
        | inl ((headers, file), got) ↦
            let (reservation, s1, room, _) =
              reserve_space-Made lru bounded (length file) (rounds lru s) s books (omega arith) in
            (
              _,
              _,
              stores-ran c s s1 headers file reservation empty got room,
              stores headers file reservation s1 empty got room,
            )
        | inr (error, failed) ↦
            (err error, s, fails-ran c s error books empty failed, fails error empty failed)
      ]
    ]
