-- ===== src/Setup/Valid.antt =====
-- What `CacheStorage::new` makes.
use server.Cache.Claim.{IsValid}
use server.Cache.Invariant.{Books, reserved_in, counts_for, counts_for-none}
use server.Cache.Totals.{total-empty}
use server.Cache.{CacheStorage, CachedResourceKey, CachedResourceKey-discrete}
use server.Config.{StorageConfig}
use server.Lru.{LruCache}
use server.Metrics.{raised, lowered}
use server.Pool.{u64_mod, new}
use server.Prelude.{
  ℕ, ◌+◌, ◌-◌, ◌≤◌, ◌<◌, ◌≡◌, ◌⊎◌, inl, inr, refl, ap, subst, sym, max, String, none, some, [],
  Result, ok, err, Run, done, arith, Bool-cases, ltb, leb, inl, inr, Result-cases, length,
}
use server.Setup.Defs.{
  Limits, min_soft_limit, soft_limit, max_files, empty_storage, with_limit, within_limits,
  new_storage,
}

module _ (lru : LruCache CachedResourceKey ℕ CachedResourceKey-discrete) where
  pub empty_storage-IsValid :
      (config : StorageConfig) (n : ℕ)
      → 0 < n
      → IsValid lru config.max_disk_capacity (empty_storage lru config n)
  unfolding empty_storage new raised lowered
  empty_storage-IsValid config n pos =
      let (no_entries, cap) = lru.new_lem n in
      let books : Books lru config.max_disk_capacity none [] (empty_storage lru config n) = record {
        conserved = omega (
          arith,
          total-empty {K = CachedResourceKey} reserved_in (empty_storage lru config n).cells []
              refl,
        );
        gauges = λ g. omega (
          arith,
          total-empty {K = CachedResourceKey} (counts_for g) (empty_storage lru config n).cells []
              refl,
          counts_for-none g,
        );
        distinct = tt;
        allocated = tt;
        stray = λ c l. refl;
      } in
      record {
        books =
            subst (λ l. Books lru config.max_disk_capacity none l (empty_storage lru config n))
              (sym no_entries) books;
        roomy = omega (arith, pos, cap);
        bounded = omega (arith, ap length no_entries);
      }

  empty_storage-cap :
      (config : StorageConfig) (n : ℕ) → lru.cap (empty_storage lru config n).cached_resources ≡ n
  unfolding empty_storage
  empty_storage-cap config n = (lru.new_lem n).1

  -- The storage is ready for as many files as the configuration asks for.
  abbrev pub IsReady : StorageConfig → CacheStorage lru → Type 0
  IsReady config s =
      IsValid lru config.max_disk_capacity s
      × (max config.min_cache_files 1 ≤ lru.cap s.cached_resources)

  with_limit-IsReady :
      (config : StorageConfig) (limit : ℕ)
      → config.max_cache_files ≡ none
      → config.min_non_cache_files + max config.min_cache_files 1 ≤ limit
      → (s : CacheStorage lru) × (with_limit lru config (ok limit) ≡ done (ok s)) × IsReady config s
  unfolding with_limit max_files
  with_limit-IsReady config limit unset enough =
      let n = limit - config.min_non_cache_files in
      let files : max_files config limit ≡ some n = rw unset (ground arith) in
      let m1 : 1 ≤ max config.min_cache_files 1 = ground arith in
      (
        empty_storage lru config n,
        rw (files, with_limit),
        (
          empty_storage-IsValid config n (omega (arith, m1)),
          omega (arith, enough, empty_storage-cap config n),
        ),
      )

  -- What `increase_nofile_limit` gives for a number within the hard limit is no less than that.
  abbrev pub Increases : Limits → Type 0
  Increases limits =
      (soft hard n m : ℕ)
      → limits.getrlimit ≡ ok (soft, hard)
      → n ≤ hard
      → limits.increase_nofile_limit n ≡ ok m
      → n ≤ m

  -- The storage that a call made, or the error that it returned.
  abbrev pub Made : StorageConfig → Run (Result String (CacheStorage lru)) → Type 0
  Made config result =
      ((error : String) × (result ≡ done (err error)))
      ⊎ ((s : CacheStorage lru) × (result ≡ done (ok s)) × IsReady config s)

  soft_limit-Made :
      (limits : Limits) (config : StorageConfig) (soft hard min_limit : ℕ)
      → Increases limits
      → limits.getrlimit ≡ ok (soft, hard)
      → min_limit ≤ hard
      → config.max_cache_files ≡ none
      → config.min_non_cache_files + max config.min_cache_files 1 ≡ min_limit
      → Made config (with_limit lru config (soft_limit limits soft min_limit))
  unfolding soft_limit with_limit
  soft_limit-Made limits config soft hard min_limit increases got within unset sum =
      elim (Bool-cases (ltb soft min_limit)) [
        | inl low ↦ elim (Result-cases (limits.increase_nofile_limit min_limit)) [
          | inl (limit, e) ↦
              let le = increases soft hard min_limit limit got within e in
              let (s, ran, ready) = with_limit-IsReady config limit unset (omega arith) in
              inr (s, rw (low, e) ran, ready)
          | inr (error, e) ↦ inl (error, rw (low, e))
        ]
        | inr high ↦
            let (s, ran, ready) =
              with_limit-IsReady config soft unset (ground (arith, high, sum)) in
            inr (s, rw high ran, ready)
      ]

  within_limits-Made :
      (limits : Limits) (config : StorageConfig) (soft hard : ℕ)
      → Increases limits
      → limits.getrlimit ≡ ok (soft, hard)
      → config.max_cache_files ≡ none
      → config.min_non_cache_files + max config.min_cache_files 1 < u64_mod
      → Made config (within_limits lru limits config soft hard)
  unfolding within_limits min_soft_limit
  within_limits-Made limits config soft hard increases got unset fits =
      let min_limit = config.min_non_cache_files + max config.min_cache_files 1 in
      let e : min_soft_limit config ≡ some min_limit = rw unset (ground (arith, fits)) in
      elim (Bool-cases (leb min_limit hard)) [
        | inl allowed ↦ subst (Made config) (sym (rw (e, within_limits) (rw allowed))) (
            soft_limit-Made limits config soft hard min_limit increases got
              (ground (arith, allowed)) unset refl)
        | inr refused ↦ inl (
          "NOFILE hard rlimit is less than the minimum limit in the config",
          rw (e, within_limits) (rw refused),
        )
      ]

  -- With no maximal number of files configured, least numbers of files whose sum a 64-bit integer
  -- holds, and a system that raises the limit, when it is asked for a number within the hard
  -- limit, to no less than that, a storage is made or an error is returned: no `unwrap` panics.
  -- The storage is valid, so all of its capacity is free, and it holds as many files as the
  -- configuration asks for at least, and no fewer than one.
  pub new_storage-Made :
      (limits : Limits) (config : StorageConfig)
      → Increases limits
      → config.max_cache_files ≡ none
      → config.min_non_cache_files + max config.min_cache_files 1 < u64_mod
      → Made config (new_storage lru limits config)
  unfolding new_storage
  new_storage-Made limits config increases unset fits = elim (Result-cases limits.getrlimit) [
    | inr (error, e) ↦ inl (error, rw e)
    | inl ((soft, hard), e) ↦
        subst (Made config) (sym (rw e))
          (within_limits-Made limits config soft hard increases e unset fits)
  ]
