-- ===== src/Cache/Counts.antt =====
-- The counters of a response change nothing else.
use server.Cache.Get.{count_found, respond}
use server.Cache.Settle.{CountsOnly}
use server.Cache.Storage.{CacheStorage, emit}
use server.Cache.Types.{CachedResourceKey, CachedResourceKey-discrete, CachedResource, Outside}
use server.Lru.{LruCache, OnceCell}
use server.Metrics.{Counter, CacheRouteMetrics, increment, raised, lowered}
use server.Prelude.{
  ℕ, refl, ◌∙◌, String, Option, none, some, Bool, true, false, if◌then◌else◌, ◌==◌, Result, ok, err,
}
use server.Routes.{PathTree, CacheRouteRule}
use server.Upstream.{UpstreamError}

module _ (lru : LruCache CachedResourceKey ℕ CachedResourceKey-discrete) where
  pub emit-CountsOnly :
      (c : Counter) (n : ℕ) (s : CacheStorage lru) → CountsOnly lru s (emit lru (increment c n) s)
  unfolding emit raised lowered
  emit-CountsOnly c n s = record {
    same_cells = λ _. refl;
    same_cache = refl;
    same_next = refl;
    same_pool = refl;
    same_raised = λ _. refl;
    same_lowered = λ _. refl;
  }

  CountsOnly-trans :
      (s s' s'' : CacheStorage lru)
      → CountsOnly lru s s'
      → CountsOnly lru s' s''
      → CountsOnly lru s s''
  CountsOnly-trans s s' s'' h h' = record {
    same_cells = λ d. h'.same_cells d ∙ h.same_cells d;
    same_cache = h'.same_cache ∙ h.same_cache;
    same_next = h'.same_next ∙ h.same_next;
    same_pool = h'.same_pool ∙ h.same_pool;
    same_raised = λ g. h'.same_raised g ∙ h.same_raised g;
    same_lowered = λ g. h'.same_lowered g ∙ h.same_lowered g;
  }

  pub emit_two :
      (c d : Counter) (n m : ℕ) (s : CacheStorage lru)
      → CountsOnly lru s (emit lru (increment c n) (emit lru (increment d m) s))
  emit_two c d n m s =
      CountsOnly-trans s _ _ (emit-CountsOnly d m s)
        (emit-CountsOnly c n (emit lru (increment d m) s))

  pub CountsOnly-if :
      (b : Bool) (s x y : CacheStorage lru)
      → CountsOnly lru s x
      → CountsOnly lru s y
      → CountsOnly lru s (if b then x else y)
  CountsOnly-if true s x y hx hy = hx
  CountsOnly-if false s x y hx hy = hy

module _ (tree : PathTree (CacheRouteRule × String))
    (lru : LruCache CachedResourceKey ℕ CachedResourceKey-discrete) (once : OnceCell)
    (m : CacheRouteMetrics) (outside : Outside) where
  pub respond-CountsOnly :
      (result : Result (Option UpstreamError) CachedResource) (s : CacheStorage lru)
      → CountsOnly lru s (respond tree lru once m outside result s).1
  unfolding respond count_found
  respond-CountsOnly (ok r) s =
      CountsOnly-if lru (r.id == outside.new_v4) s _ _
        (emit_two lru m.miss_bytes m.miss_count r.size 1 s)
        (emit_two lru m.hit_bytes m.hit_count r.size 1 s)
  respond-CountsOnly (err none) s = emit-CountsOnly lru m.not_found_count 1 s
  respond-CountsOnly (err (some e)) s = emit-CountsOnly lru m.error_count 1 s
