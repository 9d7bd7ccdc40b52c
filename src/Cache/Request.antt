-- ===== src/Cache/Request.antt =====
-- A request for a path that is cached, from the claim of its cell to the response.
use server.Cache.Claim.{IsValid, Claimed}
use server.Cache.Fill.{fetched, IsNew, Stored, Filled, fill-Filled}
use server.Cache.Get.{
  Cache, fill, fill_cell, found_response, respond, release, get_cached, holds_cell,
}
use server.Cache.Invariant.{Books}
use server.Cache.Renew.{peek, servable, claim_cell-peek}
use server.Cache.Sent.{Finds, found_response-Finds}
use server.Cache.Settle.{Books-counts, release-held, settle}
use server.Cache.Counts.{respond-CountsOnly}
use server.Cache.Storage.{CacheStorage, set_cell, claim_cell}
use server.Cache.Types.{
  CachedResourceKey, CachedResourceKey-discrete, CachedResource, CachedResourceResponse, Outside,
}
use server.Lru.{LruCache, OnceCell}
use server.Metrics.{CacheRouteMetrics}
use server.Pool.{u64_mod}
use server.Prelude.{
  ℕ, ◌<◌, ◌≤◌, ◌≡◌, refl, sym, ap, ◌∙◌, subst, String, Option, none, some, List, arith, length,
  length-append, Result, ok, err, done, true,
}
use server.Routes.{PathTree, CacheRouteRule}
use server.Upstream.{UpstreamResourceHeaders, UpstreamError}
use server.Cache.Front.{holds_cell-front, peek-front, front_kept, CountsOnly-same}

module _ (tree : PathTree (CacheRouteRule × String))
    (lru : LruCache CachedResourceKey ℕ CachedResourceKey-discrete) (once : OnceCell)
    (outside : Outside) (expires_after : Option ℕ) where
  -- What a request does, by what the cache had for its key and by what it could fetch. For a new
  -- file that the whole capacity holds, the storage that the request leaves has it for the key, at
  -- every time before its expiry.
  unfoldable pub Outcome :
      (capacity : ℕ) (k : CachedResourceKey)
      → Option CachedResource
      → Result (Option UpstreamError) (UpstreamResourceHeaders × List ℕ)
      → Result UpstreamError (Option CachedResourceResponse)
      → CacheStorage lru
      → Type 0
  Outcome capacity k (some r) answer response s' = Finds outside r response
  Outcome capacity k none (err (some error)) response s' = response ≡ err error
  Outcome capacity k none (err none) response s' = response ≡ ok none
  Outcome capacity k none (ok (headers, file)) response s' =
      (r : CachedResource) × IsNew outside expires_after headers file r
      × Finds outside r response
      × (length file ≤ capacity → (later : ℕ) → peek lru k later s' ≡ servable (some r) later)

module _ (tree : PathTree (CacheRouteRule × String))
    (lru : LruCache CachedResourceKey ℕ CachedResourceKey-discrete) (once : OnceCell)
    (cache : Cache tree) (outside : Outside) (m : CacheRouteMetrics)
    (expires_after : Option ℕ) where
  abbrev with_cell : ℕ → Option CachedResource → CacheStorage lru → CacheStorage lru
  with_cell c o s = record s { cells = set_cell s.cells c o }

  module _ (path : String) where
    fill_cell-run :
        (cell : ℕ) (s s' : CacheStorage lru) (contents : Option CachedResource)
        (result : Result (Option UpstreamError) CachedResource)
        → once.get_or_try_init
            (s.cells cell)
            (fill tree lru once cache outside expires_after (outside.upstream path))
            s
          ≡ done (result, contents, s')
        → fill_cell tree lru once cache outside path expires_after cell s
          ≡ done (result, with_cell cell contents s')
    unfolding fill_cell
    fill_cell-run cell s s' contents result ran = rw (ran, fill_cell)

    abbrev key : CachedResourceKey
    key = record { host = cache.host_key; path = path }

    get_cached-run :
        (now cell : ℕ) (s s1 s2 s4 : CacheStorage lru)
        (result : Result (Option UpstreamError) CachedResource)
        → claim_cell lru key now s ≡ done (cell, s1)
        → fill_cell tree lru once cache outside path expires_after cell s1 ≡ done (result, s2)
        → release lru cell (respond tree lru once m outside result s2).1 ≡ done s4
        → get_cached tree lru once cache outside m path now expires_after s
          ≡ done ((respond tree lru once m outside result s2).0, s4)
    unfolding get_cached
    get_cached-run now cell s s1 s2 s4 result claims fills releases =
        rw (claims, get_cached) (rw fills (rw releases))

    -- Nothing new is stored: the cell is as it was.
    unchanged :
        {capacity : ℕ} (now cell : ℕ) (s s1 : CacheStorage lru)
        (result : Result (Option UpstreamError) CachedResource)
        → Claimed lru capacity key cell s1
        → claim_cell lru key now s ≡ done (cell, s1)
        → fill_cell tree lru once cache outside path expires_after cell s1
          ≡ done (result, with_cell cell (s1.cells cell) s1)
        → (s4 : CacheStorage lru) × (get_cached tree lru once cache outside m path now expires_after
              s
            ≡ done (
              (respond tree lru once m outside result (with_cell cell (s1.cells cell) s1)).0,
              s4,
            ))
          × IsValid lru capacity s4
    unchanged {capacity} now cell s s1 result claimed claims fills =
        let s2 = with_cell cell (s1.cells cell) s1 in
        let s3 = (respond tree lru once m outside result s2).1 in
        let counts =
          CountsOnly-same lru cell s1 s3 (respond-CountsOnly tree lru once m outside result s2) in
        let front = ap lru.entries counts.same_cache ∙ claimed.front in
        let held =
          subst (λ l. holds_cell l cell ≡ true) (sym front)
            (holds_cell-front key cell claimed.rest) in
        (
          s3,
          get_cached-run now cell s s1 s2 s3 result claims fills (release-held lru s3 cell held),
          record {
            books =
                subst (λ l. Books lru capacity none l s3) (sym front)
                  (Books-counts lru s1 s3 claimed.books counts);
            roomy = subst (λ c. 0 < lru.cap c) (sym counts.same_cache) claimed.roomy;
            bounded = omega (arith, ap length front, claimed.bounded, ap lru.cap counts.same_cache);
          },
        )

    -- The file is stored: the storage has it for the key, if the capacity holds it.
    stored :
        {capacity : ℕ} (bounded : capacity < u64_mod) (now cell : ℕ) (s s1 s' : CacheStorage lru)
        (r : CachedResource) (headers : UpstreamResourceHeaders) (file : List ℕ)
        → Claimed lru capacity key cell s1
        → s1.cells cell ≡ none
        → claim_cell lru key now s ≡ done (cell, s1)
        → fill_cell tree lru once cache outside path expires_after cell s1
          ≡ done (ok r, with_cell cell (some r) s')
        → IsNew outside expires_after headers file r
        → Stored lru capacity (length file) r s1 s'
        → (response : Result UpstreamError (Option CachedResourceResponse)) × (s4 : CacheStorage
            lru)
          × (get_cached tree lru once cache outside m path now expires_after s
              ≡ done (response, s4))
          × IsValid lru capacity s4
          × Outcome tree lru once outside expires_after capacity key none
              (ok (headers, file))
              response
              s4
    unfolding Outcome respond
    stored {capacity} bounded now cell s s1 s' r headers file claimed empty claims fills new st =
        let s2 = with_cell cell (some r) s' in
        let s3 = (respond tree lru once m outside (ok r) s2).1 in
        let lt : cell < s'.next_cell =
          omega (arith, claimed.books.allocated.0, st.shrunk.same_next) in
        let (s4, releases, same, books, own) =
          settle lru bounded key cell r s' s3 st.books (st.shrunk.emptied cell empty) lt
            (respond-CountsOnly tree lru once m outside (ok r) s2) in
        let shorter = sym claimed.front ∙ st.shrunk.shorter in
        (
          found_response tree lru once outside r,
          s4,
          get_cached-run now cell s s1 s2 s4 (ok r) claims fills releases,
          record {
            books = books;
            roomy = omega (arith, claimed.roomy, st.shrunk.same_cap, ap lru.cap same);
            bounded = omega (
              arith,
              claimed.bounded,
              st.shrunk.same_cap,
              ap lru.cap same,
              ap (λ c. length (lru.entries c)) same,
              ap length shorter,
              length-append (lru.entries s'.cached_resources) st.dropped,
            );
          },
          (
            r,
            new,
            found_response-Finds tree lru once outside r,
            λ fits later.
                let (rest', front) =
                  front_kept lru capacity (length file) key cell claimed.rest
                    (lru.entries s'.cached_resources) st.dropped s1 claimed.books empty shorter
                    st.least fits in
                peek-front lru key cell rest' later s4 r (ap lru.entries same ∙ front)
                  (own (rw front (holds_cell-front key cell rest'))),
          ),
        )

    -- The four cases, once the cell is claimed.
    claim_cell-Outcome :
        {capacity : ℕ} (bounded : capacity < u64_mod) (now cell : ℕ) (s s1 : CacheStorage lru)
        (has : Option CachedResource)
        (answer : Result (Option UpstreamError) (UpstreamResourceHeaders × List ℕ))
        → Claimed lru capacity key cell s1
        → claim_cell lru key now s ≡ done (cell, s1)
        → s1.cells cell ≡ has
        → Filled tree lru once bounded cache outside expires_after (outside.upstream path) s1 answer
        → (response : Result UpstreamError (Option CachedResourceResponse)) × (s' : CacheStorage
            lru)
          × (get_cached tree lru once cache outside m path now expires_after s
              ≡ done (response, s'))
          × IsValid lru capacity s'
          × Outcome tree lru once outside expires_after capacity key has answer response s'
    unfolding Outcome Filled respond
    claim_cell-Outcome bounded now cell s s1 (some r) answer claimed claims has fills =
        let filled =
          fill_cell-run cell s1 s1 (s1.cells cell) (ok r) (rw has (once.init_filled r _ s1)) in
        let (s4, ran, valid) = unchanged now cell s s1 (ok r) claimed claims filled in
        (
          found_response tree lru once outside r,
          s4,
          ran,
          valid,
          found_response-Finds tree lru once outside r,
        )
    claim_cell-Outcome bounded now cell s s1 none (err none) claimed claims has fills =
        let filled =
          fill_cell-run cell s1 s1 (s1.cells cell) (err none)
            (rw has (once.init_err _ s1 none s1 fills)) in
        let (s4, ran, valid) = unchanged now cell s s1 (err none) claimed claims filled in
        (ok none, s4, ran, valid, refl)
    claim_cell-Outcome bounded now cell s s1 none (err (some error)) claimed claims has fills =
        let filled =
          fill_cell-run cell s1 s1 (s1.cells cell) (err (some error))
            (rw has (once.init_err _ s1 (some error) s1 fills)) in
        let (s4, ran, valid) = unchanged now cell s s1 (err (some error)) claimed claims filled in
        (err error, s4, ran, valid, refl)
    claim_cell-Outcome bounded now cell s s1 none (ok (headers, file)) claimed claims has fills =
        let (r, s', ran, new, st) = fills in
        stored bounded now cell s s1 s' r headers file claimed has claims
          (fill_cell-run cell s1 s' (some r) (ok r) (rw has (once.init_ok _ s1 r s' ran))) new st

    -- A request for a path that is cached, on a valid storage of a capacity below 2^64, ends, without
    -- a panic, and leaves a valid storage. What the cache has for the key, if that has no expiry or
    -- one after `now`, is sent: its headers, its body and its expiry, as a hit unless this request
    -- made it; the upstream plays no part. Otherwise the response is the error or the absence that
    -- the upstream, the temporary file and the copy give, or their file, sent as a miss or with the
    -- error of opening it; and if the capacity holds that file, the storage that the request leaves
    -- has it for the key, at every time before its expiry.
    pub get_cached-Outcome :
        {capacity : ℕ} (bounded : capacity < u64_mod) (now : ℕ) (s : CacheStorage lru)
        → IsValid lru capacity s
        → (response : Result UpstreamError (Option CachedResourceResponse)) × (s' : CacheStorage
            lru)
          × (get_cached tree lru once cache outside m path now expires_after s
              ≡ done (response, s'))
          × IsValid lru capacity s'
          × Outcome tree lru once outside expires_after capacity key
              (peek lru key now s)
              (fetched outside s.cache_dir (outside.upstream path))
              response
              s'
    get_cached-Outcome {capacity} bounded now s h =
        let (cell, s1, claims, claimed, has, dir) = claim_cell-peek lru bounded key now s h in
        let books = subst (λ l. Books lru capacity none l s1) (sym claimed.front) claimed.books in
        let fills =
          fill-Filled tree lru once bounded cache outside expires_after (outside.upstream path) s1
            books in
        claim_cell-Outcome bounded now cell s s1 (peek lru key now s) _ claimed claims has (
          subst
            (λ d.
              Filled tree lru once bounded cache outside expires_after (outside.upstream path) s1
                (fetched outside d (outside.upstream path)))
            dir fills)
