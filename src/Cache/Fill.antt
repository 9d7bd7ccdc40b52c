-- ===== src/Cache/Fill.antt =====
-- The closure of `get_or_try_init`: what it makes of the upstream's answer.
use server.Cache.Create.{
  HostMetrics, estimate, reserve_space, rounds, store_file, create_cached_resource,
}
use server.Cache.Evict.{Shrunk}
use server.Cache.Get.{Cache, fill}
use server.Cache.Invariant.{Books, reserved_in, counts_for}
use server.Cache.Space.{reserve_space-Made}
use server.Cache.Storage.{CacheStorage, emit}
use server.Cache.Totals.{total}
use server.Cache.Types.{CachedResourceKey, CachedResourceKey-discrete, CachedResource, Outside}
use server.Lru.{LruCache, OnceCell}
use server.Metrics.{raise, raised, lowered}
use server.Pool.{u64_mod, CacheCapacityReservation}
use server.Prelude.{
  ℕ, ◌+◌, ◌<◌, ◌≡◌, refl, sym, subst, String, Option, none, some, List, [], ◌∷◌, arith, length,
  Result, ok, err, done, ◌⊎◌, inl, inr, Option-cases, Result-cases,
}
use server.Routes.{PathTree, CacheRouteRule}
use server.Upstream.{UpstreamResource, UpstreamResourceHeaders, UpstreamError, io}

-- The file that the answer of an upstream becomes, or why there is none: `none` if the upstream has
-- no such resource.
unfoldable pub fetched :
    Outside
    → String
    → Result UpstreamError (Option UpstreamResource)
    → Result (Option UpstreamError) (UpstreamResourceHeaders × List ℕ)
fetched outside dir (err error) = err (some error)
fetched outside dir (ok none) = err none
fetched outside dir (ok (some resource)) = elim (outside.tempfile_in dir) [
  | some error ↦ err (some (io error))
  | none ↦ elim (outside.copy resource.body) [
    | err error ↦ err (some (io error))
    | ok file ↦ ok (resource.headers, file)
  ]
]

-- A resource that this request has stored.
pub record IsNew (outside : Outside) (expires_after : Option ℕ) (headers : UpstreamResourceHeaders)
    (file : List ℕ) (r : CachedResource) : Type 0 where
  pub its_id : r.id ≡ outside.new_v4
  pub its_headers : r.headers ≡ headers
  pub its_file : r.file ≡ file
  pub its_size : r.size ≡ length file
  pub its_expiry : r.expires_at ≡ expires_after
  pub its_timestamp : r.expires_at_timestamp ≡ estimate outside expires_after

module _ (lru : LruCache CachedResourceKey ℕ CachedResourceKey-discrete) where
  -- The storage while the new resource is in no cell yet.
  pub record Stored (capacity size : ℕ) (r : CachedResource) (s s' : CacheStorage lru)
      : Type 0 where
    pub dropped : List (CachedResourceKey × ℕ)
    pub shrunk : Shrunk lru dropped s s'
    pub books : Books lru capacity (some r) (lru.entries s'.cached_resources) s'
    pub least :
        (dropped ≡ [])
        ⊎ ((e : CachedResourceKey × ℕ) × (es : List (CachedResourceKey × ℕ)) × (dropped ≡ e ∷ es)
            × (s.capacity_pool.available_capacity + total reserved_in s.cells es < size))

  module _ (outside : Outside) (handles : HostMetrics) (expires_at : Option ℕ)
      (headers : UpstreamResourceHeaders) (file : List ℕ) where
    abbrev pub new_resource : CacheCapacityReservation → CachedResource
    new_resource reservation = record {
      id = outside.new_v4;
      headers = headers;
      file = file;
      size = length file;
      expires_at = expires_at;
      expires_at_timestamp = estimate outside expires_at;
      cache_eviction_count = handles.cache_eviction_count;
      cache_eviction_bytes = handles.cache_eviction_bytes;
      cache_disk_file_count = handles.cache_disk_file_count;
      cache_disk_bytes = handles.cache_disk_bytes;
      reservation = reservation;
    }

    abbrev pub with_raised : CacheStorage lru → CacheStorage lru
    with_raised s = record s {
      events =
          raise handles.cache_disk_bytes (length file)
          ∷ raise handles.cache_disk_file_count 1
          ∷ s.events;
    }

    pub store_file-run :
        (s s' : CacheStorage lru) (reservation : CacheCapacityReservation)
        → reserve_space lru (rounds lru s) (length file) s ≡ done (reservation, s')
        → store_file lru outside handles outside.new_v4 expires_at headers file s
          ≡ done (new_resource reservation, with_raised s')
    unfolding store_file emit
    store_file-run s s' reservation ran = rw (ran, store_file)

    pub Books-raised :
        (capacity left : ℕ) (reservation : CacheCapacityReservation) (s : CacheStorage lru)
        (live : List (CachedResourceKey × ℕ))
        → Books lru left none live s
        → left + reservation.reserved ≡ capacity
        → Books lru capacity (some (new_resource reservation)) live (with_raised s)
    unfolding raised lowered counts_for
    Books-raised capacity left reservation s live h taken = record {
      conserved = omega (arith, h.conserved, taken);
      gauges = λ g. omega (arith, h.gauges g);
      distinct = h.distinct;
      allocated = h.allocated;
      stray = h.stray;
    }

    store_file-Stored :
        {capacity : ℕ} (bounded : capacity < u64_mod) (s : CacheStorage lru)
        → Books lru capacity none (lru.entries s.cached_resources) s
        → (r : CachedResource) × (s' : CacheStorage lru) × (store_file lru outside handles
              outside.new_v4 expires_at headers file s
            ≡ done (r, s'))
          × IsNew outside expires_at headers file r
          × Stored capacity (length file) r s s'
    store_file-Stored {capacity} bounded s h =
        let (reservation, s1, ran, made) =
          reserve_space-Made lru bounded (length file) (rounds lru s) s h (omega arith) in
        (
          new_resource reservation,
          with_raised s1,
          store_file-run s s1 reservation ran,
          record {
            its_id = refl;
            its_headers = refl;
            its_file = refl;
            its_size = refl;
            its_expiry = refl;
            its_timestamp = refl;
          },
          record {
            dropped = made.dropped;
            shrunk = record {
              shorter = made.shrunk.shorter;
              same_cap = made.shrunk.same_cap;
              same_next = made.shrunk.same_next;
              emptied = made.shrunk.emptied;
              others = made.shrunk.others;
            };
            books =
                Books-raised capacity made.left reservation s1 (lru.entries s1.cached_resources)
                  made.books made.taken;
            least = made.least;
          },
        )

module _ (tree : PathTree (CacheRouteRule × String))
    (lru : LruCache CachedResourceKey ℕ CachedResourceKey-discrete) (once : OnceCell) {capacity : ℕ}
    (bounded : capacity < u64_mod) (cache : Cache tree) (outside : Outside)
    (expires_after : Option ℕ) where
  -- The closure fails as `fetched` does, and then changes nothing, or it stores the file.
  unfoldable pub Filled :
      Result UpstreamError (Option UpstreamResource)
      → CacheStorage lru
      → Result (Option UpstreamError) (UpstreamResourceHeaders × List ℕ)
      → Type 0
  Filled answer s (err error) =
      fill tree lru once cache outside expires_after answer s ≡ done (err error, s)
  Filled answer s (ok (headers, file)) =
      (r : CachedResource) × (s' : CacheStorage lru) × (fill tree lru once cache outside
          expires_after answer s
        ≡ done (ok r, s'))
      × IsNew outside expires_after headers file r
      × Stored lru capacity (length file) r s s'

  module _ (resource : UpstreamResource) (s : CacheStorage lru) where
    abbrev Creates : Result UpstreamError CachedResource → CacheStorage lru → Type 0
    Creates result s' =
        create_cached_resource lru outside cache.handles outside.new_v4 expires_after
          resource.headers resource.body s
        ≡ done (result, s')

    fails :
        (e : UpstreamError)
        → Creates (err e) s
        → fetched outside s.cache_dir (ok (some resource)) ≡ err (some e)
        → Filled (ok (some resource)) s (fetched outside s.cache_dir (ok (some resource)))
    unfolding fill Filled
    fails e created same = subst (Filled (ok (some resource)) s) (sym same) (rw (created, fill))

    no_tempfile :
        (error : String)
        → outside.tempfile_in s.cache_dir ≡ some error
        → Creates (err (io error)) s
          × (fetched outside s.cache_dir (ok (some resource)) ≡ err (some (io error)))
    unfolding create_cached_resource fetched
    no_tempfile error et = (rw (et, create_cached_resource), rw (et, fetched))

    no_copy :
        (error : String)
        → outside.tempfile_in s.cache_dir ≡ none
        → outside.copy resource.body ≡ err error
        → Creates (err (io error)) s
          × (fetched outside s.cache_dir (ok (some resource)) ≡ err (some (io error)))
    unfolding create_cached_resource fetched
    no_copy error et ec = (rw (et, create_cached_resource) (rw ec), rw (et, fetched) (rw ec))

    copied :
        (file : List ℕ) (r : CachedResource) (s' : CacheStorage lru)
        → outside.tempfile_in s.cache_dir ≡ none
        → outside.copy resource.body ≡ ok file
        → store_file lru outside cache.handles outside.new_v4 expires_after resource.headers file s
          ≡ done (r, s')
        → Creates (ok r) s'
          × (fetched outside s.cache_dir (ok (some resource)) ≡ ok (resource.headers, file))
    unfolding create_cached_resource fetched
    copied file r s' et ec stored =
        (rw (et, create_cached_resource) (rw (ec, stored)), rw (et, fetched) (rw ec))

    succeeds :
        (file : List ℕ) (r : CachedResource) (s' : CacheStorage lru)
        → Creates (ok r) s'
        → fetched outside s.cache_dir (ok (some resource)) ≡ ok (resource.headers, file)
        → IsNew outside expires_after resource.headers file r
        → Stored lru capacity (length file) r s s'
        → Filled (ok (some resource)) s (fetched outside s.cache_dir (ok (some resource)))
    unfolding fill Filled
    succeeds file r s' created same new stored =
        subst (Filled (ok (some resource)) s) (sym same) (r, s', rw (created, fill), new, stored)

    -- Once the file is fetched, the closure goes as `store_file` goes.
    pub fill-stored :
        (headers : UpstreamResourceHeaders) (file : List ℕ) (r : CachedResource)
        (s' : CacheStorage lru)
        → fetched outside s.cache_dir (ok (some resource)) ≡ ok (headers, file)
        → store_file lru outside cache.handles outside.new_v4 expires_after headers file s
          ≡ done (r, s')
        → fill tree lru once cache outside expires_after (ok (some resource)) s ≡ done (ok r, s')
    unfolding fill fetched
    fill-stored headers file r s' got ran = elim (Option-cases (outside.tempfile_in s.cache_dir)) [
      | inr (error, et) ↦ absurd (cc (got, (no_tempfile error et).1))
      | inl et ↦ elim (Result-cases (outside.copy resource.body)) [
        | inr (error, ec) ↦ absurd (cc (got, (no_copy error et ec).1))
        | inl (copy, ec) ↦
            let same : fetched outside s.cache_dir (ok (some resource))
                ≡ ok (resource.headers, copy) =
              rw (et, fetched) (rw ec) in
            let its : (headers, file) ≡ (resource.headers, copy) = cc (got, same) in
            let ran' =
              subst
                (λ (x : UpstreamResourceHeaders × List ℕ).
                  store_file lru outside cache.handles outside.new_v4 expires_after x.0 x.1 s
                  ≡ done (r, s'))
                its ran in
            let (created, _) = copied copy r s' et ec ran' in rw (created, fill)
      ]
    ]

    fill-found :
        Books lru capacity none (lru.entries s.cached_resources) s
        → Filled (ok (some resource)) s (fetched outside s.cache_dir (ok (some resource)))
    fill-found h = elim (Option-cases (outside.tempfile_in s.cache_dir)) [
      | inr (error, et) ↦
          let (created, same) = no_tempfile error et in fails (io error) created same
      | inl et ↦ elim (Result-cases (outside.copy resource.body)) [
        | inr (error, ec) ↦
            let (created, same) = no_copy error et ec in fails (io error) created same
        | inl (file, ec) ↦
            let (r, s', ran, new, stored) =
              store_file-Stored lru outside cache.handles expires_after resource.headers file
                bounded s h in
            let (created, same) = copied file r s' et ec ran in
            succeeds file r s' created same new stored
      ]
    ]

  pub fill-Filled :
      (answer : Result UpstreamError (Option UpstreamResource)) (s : CacheStorage lru)
      → Books lru capacity none (lru.entries s.cached_resources) s
      → Filled answer s (fetched outside s.cache_dir answer)
  unfolding fill fetched Filled
  fill-Filled (err error) s h = refl
  fill-Filled (ok none) s h = refl
  fill-Filled (ok (some resource)) s h = fill-found resource s h
