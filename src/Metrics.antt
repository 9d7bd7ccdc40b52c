-- ===== src/Metrics.antt =====
-- src/cache.rs: the metrics of the cache. The recorder of the crate `metrics` is the list of the
-- updates that it was sent, the latest first, with natural numbers for the f64 of the gauges; a
-- handle is the metric's name with its labels.
use server.Prelude.{ℕ, ◌+◌, String, Option, some, List, [], ◌∷◌, ite, String_discrete}

-- The names, each without its prefix `server3_cache_`.
pub data CounterName : Type 0 where
  request_count miss_count miss_bytes hit_count hit_bytes never_count error_count : CounterName
  not_found_count unrouted_count eviction_count eviction_bytes : CounterName

pub data GaugeName : Type 0 where
  disk_file_count disk_bytes : GaugeName

pub record Counter : Type 0 where
  pub name : CounterName
  pub host : String
  pub path : Option String

pub record Gauge : Type 0 where
  pub name : GaugeName
  pub host : String

pub data Event : Type 0 where
  increment : Counter → ℕ → Event
  raise : Gauge → ℕ → Event
  lower : Gauge → ℕ → Event

pub record CacheRouteMetrics : Type 0 where
  pub request_count : Counter
  pub miss_count : Counter
  pub miss_bytes : Counter
  pub hit_count : Counter
  pub hit_bytes : Counter
  pub never_count : Counter
  pub error_count : Counter
  pub not_found_count : Counter
  pub unrouted_count : Counter

abbrev route_counter : String → String → CounterName → Counter
route_counter host_key path_pattern name = record {
  name = name;
  host = host_key;
  path = some path_pattern;
}

unfoldable pub new_route_metrics : String → String → CacheRouteMetrics
new_route_metrics host_key path_pattern = record {
  request_count = route_counter host_key path_pattern CounterName.request_count;
  miss_count = route_counter host_key path_pattern CounterName.miss_count;
  miss_bytes = route_counter host_key path_pattern CounterName.miss_bytes;
  hit_count = route_counter host_key path_pattern CounterName.hit_count;
  hit_bytes = route_counter host_key path_pattern CounterName.hit_bytes;
  never_count = route_counter host_key path_pattern CounterName.never_count;
  error_count = route_counter host_key path_pattern CounterName.error_count;
  not_found_count = route_counter host_key path_pattern CounterName.not_found_count;
  unrouted_count = route_counter host_key path_pattern CounterName.unrouted_count;
}

unfoldable pub Gauge-discrete : Discrete Gauge
unfolding String_discrete
Gauge-discrete = hlevel String_discrete

-- How far the updates have raised and lowered a gauge. Its value is the difference.
unfoldable pub raised : Gauge → List Event → ℕ
unfolding Gauge-discrete
raised g [] = 0
raised g (raise h n ∷ events) = ite (Gauge-discrete h g) n 0 + raised g events
raised g (increment _ _ ∷ events) = raised g events
raised g (lower _ _ ∷ events) = raised g events

unfoldable pub lowered : Gauge → List Event → ℕ
unfolding Gauge-discrete
lowered g [] = 0
lowered g (lower h n ∷ events) = ite (Gauge-discrete h g) n 0 + lowered g events
lowered g (increment _ _ ∷ events) = lowered g events
lowered g (raise _ _ ∷ events) = lowered g events

unfoldable pub Counter-discrete : Discrete Counter
unfolding String_discrete
Counter-discrete = hlevel String_discrete

-- How far the updates have raised a counter.
unfoldable pub increments : Counter → List Event → ℕ
unfolding Counter-discrete
increments c [] = 0
increments c (increment d n ∷ events) = ite (Counter-discrete d c) n 0 + increments c events
increments c (raise _ _ ∷ events) = increments c events
increments c (lower _ _ ∷ events) = increments c events
