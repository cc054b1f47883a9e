-- ===== src/RateLimiter/Limits.antt =====
-- The overrides of pkg/redirect/rate_limiter.go: their compilation to address sets, and the choice of
-- the override for an address.
use registry_redirect.Prelude.{
  Bool, true, false, not, ◌||◌, Option, none, some, List, [], ◌∷◌, if◌then◌else◌, ℤ, is_pos,
}
use registry_redirect.RateLimiter.Deps.{Deps}

module _ (deps : Deps) where
  open deps use {
    Limit, Addr, Prefix, IpSet, per_minute, is_valid, masked, build_set, has_no_range, set_contains,
  }

  -- `IPRateLimitOverride`.
  pub record Override : Type 0 where
    pub requests_per_minute : ℤ
    pub burst : ℤ
    pub ip_prefixes : List Prefix

  -- `ipRateLimit`.
  pub record RateLimit : Type 0 where
    pub limit : Limit
    pub burst : ℤ

  -- `compiledIPRateLimitOverride`.
  pub record Compiled : Type 0 where
    pub rate_limit : RateLimit
    pub ip_set : IpSet

  unfoldable pub all_valid : List Prefix → List Prefix
  all_valid [] = []
  all_valid (p ∷ ps) = let rest = all_valid ps in if is_valid p then masked p ∷ rest else rest

  -- A set with an address in it.
  abbrev pub non_empty : Option IpSet → Option IpSet
  non_empty none = none
  non_empty (some s) = if has_no_range s then none else some s

  abbrev pub is_empty : List Prefix → Bool
  is_empty [] = true
  is_empty (p ∷ ps) = false

  -- `newIPSet`: `none` stands for a nil set and for an error, which the caller treats alike.
  unfoldable pub new_ip_set : List Prefix → Option IpSet
  new_ip_set prefixes =
      if is_empty (all_valid prefixes) then none else non_empty (build_set (all_valid prefixes))

  -- The body of the loop of `compileIPRateLimitOverrides`: `none` is its `continue`.
  unfoldable pub compile_one : Override → Option Compiled
  compile_one o =
      if not (is_pos o.requests_per_minute) || not (is_pos o.burst) || is_empty o.ip_prefixes
      then none
      else elim (new_ip_set o.ip_prefixes) [
        | none ↦ none
        | some s ↦ some (record {
          rate_limit = record { limit = per_minute o.requests_per_minute; burst = o.burst };
          ip_set = s;
        })
      ]

  abbrev pub keep : Option Compiled → List Compiled → List Compiled
  keep none l = l
  keep (some c) l = c ∷ l

  unfoldable pub compile_overrides : List Override → List Compiled
  compile_overrides [] = []
  compile_overrides (o ∷ l) = keep (compile_one o) (compile_overrides l)

  -- The loop over the overrides: the first whose set has the address.
  unfoldable pub first_match : Addr → List Compiled → Option RateLimit
  first_match addr [] = none
  first_match addr (o ∷ l) =
      if set_contains o.ip_set addr then some o.rate_limit else first_match addr l

  abbrev pub or_default : Option RateLimit → RateLimit → RateLimit
  or_default none d = d
  or_default (some r) d = r
