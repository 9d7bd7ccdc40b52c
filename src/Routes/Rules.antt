-- ===== src/Routes/Rules.antt =====
-- src/cache.rs: the rules, and how they are read from the configuration.
use server.Config.{
  CacheConfigMaxAge, seconds, duration, other, forever, never, CacheConfig, RouteConfig,
}
use server.Prelude.{ℕ, ◌*◌, is_positive, to_unsigned, if◌then◌else◌, Run, done, ◌>>=◌, unwrap}

-- `CacheFor` holds a duration in nanoseconds.
pub data CacheMaxAgeRule : Type 0 where
  cache_forever : CacheMaxAgeRule
  cache_for : ℕ → CacheMaxAgeRule
  cache_never : CacheMaxAgeRule

pub record CacheEnabledRouteRule : Type 0 where
  pub max_age : CacheMaxAgeRule

pub data CacheRouteRule : Type 0 where
  enabled : CacheEnabledRouteRule → CacheRouteRule
  disabled : CacheRouteRule

-- `Duration::from_secs`.
abbrev pub from_secs : ℕ → ℕ
from_secs n = n * 1_000_000_000

-- `impl From<CacheConfigMaxAge> for CacheMaxAgeRule`; `expect` may panic.
unfoldable pub max_age_from : CacheConfigMaxAge → Run CacheMaxAgeRule
max_age_from (seconds n) =
    if is_positive n
    then (do s ← unwrap (to_unsigned n); done (cache_for (from_secs s)))
    else done cache_never
max_age_from (duration d) =
    if is_positive d then (do t ← unwrap (to_unsigned d); done (cache_for t)) else done cache_never
max_age_from (other forever) = done cache_forever
max_age_from (other never) = done cache_never

-- `impl From<CacheConfig> for CacheEnabledRouteRule`.
unfoldable pub enabled_rule_from : CacheConfig → Run CacheEnabledRouteRule
unfolding max_age_from
enabled_rule_from value = do r ← max_age_from value.max_age; done (record { max_age = r })

-- `impl From<RouteConfig> for CacheRouteRule`.
unfoldable pub route_rule_from : RouteConfig → Run CacheRouteRule
unfolding enabled_rule_from
route_rule_from (RouteConfig.disabled _) = done CacheRouteRule.disabled
route_rule_from (RouteConfig.enabled cache) = do r ← enabled_rule_from cache; done (enabled r)
