-- ===== src/RateLimiter/Deps.antt =====
-- What pkg/redirect/rate_limiter.go takes from golang.org/x/time/rate, net/netip and
-- go4.org/netipx.
use registry_redirect.Prelude.{ℕ, Bool, Option, List, Bytes, ℤ}

-- A rate per minute as a float, `rate.NewLimiter`,
-- `Limiter.AllowN`, `netip.ParseAddr`, `Addr.Unmap`, `Prefix.IsValid`, `Prefix.Masked`, an
-- `IPSetBuilder` filled with prefixes and its `IPSet`, `IPSet.Ranges` being empty, and
-- `IPSet.Contains`.
pub record Deps : Type 1 where
  pub Limit : Type 0
  pub Limiter : Type 0
  pub Addr : Type 0
  pub Prefix : Type 0
  pub IpSet : Type 0
  pub per_minute : ℤ → Limit
  pub new_limiter : Limit → ℤ → Limiter
  pub allow_n : ℕ → ℕ → Limiter → Limiter × Bool
  pub parse_addr : Bytes → Option Addr
  pub unmap : Addr → Addr
  pub is_valid : Prefix → Bool
  pub masked : Prefix → Prefix
  pub build_set : List Prefix → Option IpSet
  pub has_no_range : IpSet → Bool
  pub set_contains : IpSet → Addr → Bool
