-- ===== src/Cache/Types.antt =====
-- src/cache.rs: keys, cached resources, responses, and what a request meets outside the program.
use server.Metrics.{Counter, Gauge}
use server.Pool.{CacheCapacityReservation}
use server.Prelude.{ℕ, String, Bool, false, Option, none, some, List, leb, Result, String_discrete}
use server.Upstream.{Body, Upstream, UpstreamResource, UpstreamResourceHeaders}

pub record CachedResourceKey : Type 0 where
  pub host : String
  pub path : String

unfoldable pub CachedResourceKey-discrete : Discrete CachedResourceKey
unfolding String_discrete
CachedResourceKey-discrete = hlevel String_discrete

-- Instants and timestamps count nanoseconds, an id is a number, a file is its contents.
pub record CachedResource : Type 0 where
  pub id : ℕ
  pub headers : UpstreamResourceHeaders
  pub file : List ℕ
  pub size : ℕ
  pub expires_at : Option ℕ
  pub expires_at_timestamp : Option ℕ
  pub cache_eviction_count : Counter
  pub cache_eviction_bytes : Counter
  pub cache_disk_file_count : Gauge
  pub cache_disk_bytes : Gauge
  pub reservation : CacheCapacityReservation

unfoldable pub is_expired : CachedResource → ℕ → Bool
is_expired resource now = elim resource.expires_at [
  | none ↦ false
  | some expires_at ↦ leb expires_at now
]

-- `cell.get().is_some_and(|resource| resource.is_expired(now))`.
unfoldable pub is_stale : Option CachedResource → ℕ → Bool
unfolding is_expired
is_stale none now = false
is_stale (some resource) now = is_expired resource now

pub data CacheOutcome : Type 0 where
  hit miss never : CacheOutcome

unfoldable pub as_str : CacheOutcome → String
as_str hit = "hit"
as_str miss = "miss"
as_str never = "never"

pub record CachedResourceResponse : Type 0 where
  pub resource : UpstreamResource
  pub outcome : CacheOutcome
  pub expires_at : Option ℕ

-- What one request meets outside the program: the answers of the upstream, of the operating system,
-- of the clocks and of the libraries.
pub record Outside : Type 0 where
  -- `self.upstream`
  pub upstream : Upstream
  -- `uuid::Uuid::new_v4()`
  pub new_v4 : ℕ
  -- `Instant::checked_add`
  pub instant_checked_add : ℕ → ℕ → Option ℕ
  -- whether `tempfile::tempfile_in` fails, and with what; that its thread panics, which the `unwrap`
  -- of the join passes on, is left out
  pub tempfile_in : String → Option String
  -- `tokio::io::copy` of a body into a file
  pub copy : Body → Result String (List ℕ)
  -- `Instant::now()` and `jiff::Timestamp::now()` when the expiry is estimated
  pub instant_now : ℕ
  pub timestamp_now : ℕ
  -- `jiff::Timestamp::checked_add`
  pub timestamp_checked_add : ℕ → ℕ → Option ℕ
  -- whether `try_clone` of the file fails, and with what
  pub try_clone : Option String
  -- `FileExt::read_at` of the file at an offset, into a buffer of 16,384 bytes
  pub read_at : List ℕ → ℕ → Result String (List ℕ)
  -- how many frames the receiver of the response takes before it hangs up
  pub patience : ℕ
