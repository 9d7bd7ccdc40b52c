-- ===== src/Config.antt =====
-- src/config.rs: the configuration that the server reads, and its defaults. A `HashMap` is the
-- list of its entries, each key once, in the order in which the map is walked.
use server.Prelude.{ℕ, ◌*◌, String, Bool, Option, none, List, ℤ}

pub data CacheConfigMaxAgeOther : Type 0 where
  forever never : CacheConfigMaxAgeOther

-- `duration` counts nanoseconds, as a `jiff::SignedDuration` does; `seconds` is an `i64`.
pub data CacheConfigMaxAge : Type 0 where
  seconds : ℤ → CacheConfigMaxAge
  duration : ℤ → CacheConfigMaxAge
  other : CacheConfigMaxAgeOther → CacheConfigMaxAge

pub record CacheConfig : Type 0 where
  pub max_age : CacheConfigMaxAge

-- `CacheConfigMaxAge::never` and `CacheConfigMaxAge::forever`.
abbrev pub max_age_never : CacheConfigMaxAge
max_age_never = other never

abbrev pub max_age_forever : CacheConfigMaxAge
max_age_forever = other forever

unfoldable pub default_cache_config : CacheConfig
default_cache_config = record { max_age = max_age_forever }

pub data DisabledRoute : Type 0 where
  disabled : DisabledRoute

pub data RouteConfig : Type 0 where
  disabled : DisabledRoute → RouteConfig
  enabled : CacheConfig → RouteConfig

pub record UpstreamHttpConfig : Type 0 where
  pub url : String
  pub http_timeout : Option ℕ
  pub http_read_timeout : Option ℕ
  pub http_connect_timeout : Option ℕ

pub record UpstreamS3Config : Type 0 where
  pub bucket : String
  pub prefix : String
  pub profile : Option String
  pub region : Option String
  pub endpoint_url : Option String

-- `UpstreamFallthroughConfig` is the constructor `fallthrough`.
mutual
  pub data UpstreamConfig : Type 0 where
    http : UpstreamHttpConfig → UpstreamConfig
    s3 : UpstreamS3Config → UpstreamConfig
    fallthrough : UpstreamConfigs → UpstreamConfig

  pub data UpstreamConfigs : Type 0 where
    nil : UpstreamConfigs
    cons : UpstreamConfig → UpstreamConfigs → UpstreamConfigs

pub record HostConfig : Type 0 where
  pub upstream : Option UpstreamConfig
  pub routes : Option (List (String × RouteConfig))
  pub cache : Option CacheConfig

pub record StorageConfig : Type 0 where
  pub dir : String
  pub max_disk_capacity : ℕ
  pub min_cache_files : ℕ
  pub max_cache_files : Option ℕ
  pub min_non_cache_files : ℕ

-- `ByteSize::gb(1)`: a decimal gigabyte.
unfoldable pub default_max_disk_capacity : ℕ
default_max_disk_capacity = 1000 * 1000 * 1000

abbrev pub default_min_cache_files : ℕ
default_min_cache_files = 500

abbrev pub default_min_non_cache_files : ℕ
default_min_non_cache_files = 500

-- `temp_dir` is `std::env::temp_dir()`.
unfoldable pub default_storage_config : String → StorageConfig
default_storage_config temp_dir = record {
  dir = temp_dir;
  max_disk_capacity = default_max_disk_capacity;
  min_cache_files = default_min_cache_files;
  max_cache_files = none;
  min_non_cache_files = default_min_non_cache_files;
}

pub record MetadataConfig : Type 0 where
  pub cache_outcome : Bool
  pub expires_at : Bool
  pub node_name : Option String

pub record Config : Type 0 where
  pub bind_address : String
  pub bind_metrics_address : String
  pub hosts : List (String × HostConfig)
  pub upstream : Option UpstreamConfig
  pub routes : List (String × RouteConfig)
  pub cache : CacheConfig
  pub storage : StorageConfig
  pub metadata : MetadataConfig

abbrev pub default_bind_address : String
default_bind_address = "0.0.0.0:3000"

abbrev pub default_bind_metrics_address : String
default_bind_metrics_address = "0.0.0.0:3001"
