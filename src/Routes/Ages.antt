-- ===== src/Routes/Ages.antt =====
-- What the configured maximum ages mean, and that reading them never panics.
use server.Config.{CacheConfigMaxAge, seconds, duration, other, forever, never}
use server.Prelude.{
  ℕ, ◌*◌, ◌<◌, ◌≡◌, refl, ◌⊎◌, ℤ, pos, negsuc, Option, none, some, done, arith, zero, suc, inl, inr,
}
use server.Routes.Rules.{
  CacheMaxAgeRule, cache_forever, cache_for, cache_never, from_secs, max_age_from,
}

-- How long the configuration asks to keep a resource, in nanoseconds; `none` is for ever.
pub asked : CacheConfigMaxAge → Option ℤ
asked (seconds (pos n)) = some (pos (n * 1_000_000_000))
asked (seconds (negsuc n)) = some (negsuc n)
asked (duration d) = some d
asked (other forever) = none
asked (other never) = some (pos 0)

-- The rule keeps a resource as long as was asked, and not at all if that is no positive time.
abbrev pub Grants : CacheMaxAgeRule → Option ℤ → Type 0
Grants cache_forever o = o ≡ none
Grants (cache_for d) o = (o ≡ some (pos d)) × (0 < d)
Grants cache_never o = (o ≡ some (pos 0)) ⊎ ((n : ℕ) × (o ≡ some (negsuc n)))

-- Every configured maximum age is turned into a rule, with no panic by an `expect`. The rule is
-- "for ever" only if that was asked, a positive duration only if exactly that was asked, and
-- "never" only if zero or a negative time was asked.
pub max_age_from-Grants :
    (c : CacheConfigMaxAge) → (r : CacheMaxAgeRule) × (max_age_from c ≡ done r) × Grants r (asked c)
unfolding max_age_from asked
max_age_from-Grants (seconds (pos zero)) = (cache_never, ground arith, inl refl)
max_age_from-Grants (seconds (pos (suc n))) =
    (cache_for (from_secs (suc n)), ground arith, (refl, omega arith))
max_age_from-Grants (seconds (negsuc n)) = (cache_never, refl, inr (n, refl))
max_age_from-Grants (duration (pos zero)) = (cache_never, ground arith, inl refl)
max_age_from-Grants (duration (pos (suc n))) =
    (cache_for (suc n), ground arith, (refl, omega arith))
max_age_from-Grants (duration (negsuc n)) = (cache_never, refl, inr (n, refl))
max_age_from-Grants (other forever) = (cache_forever, refl, refl)
max_age_from-Grants (other never) = (cache_never, ground arith, inl refl)
