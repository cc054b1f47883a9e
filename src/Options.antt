-- ===== src/Options.antt =====
-- pkg/redirect/options.go: the options of the handler and their defaults. The round trippers are an
-- abstract type `T`, `nil` is `none`, and a duration is a number of nanoseconds.
pub mod Defaults
mod Tests
use registry_redirect.Prelude.{
  ℕ, zero, suc, ◌*◌, ◌^◌, Bool, true, false, Option, none, some, List, [], if◌then◌else◌, ℤ, pos,
  negsuc, is_pos,
}
use registry_redirect.Tracker.{Tracker}

abbrev pub second : ℕ
second = 10 ^ 9

abbrev pub default_requests_per_minute : ℤ
default_requests_per_minute = pos 240

abbrev pub default_burst : ℤ
default_burst = pos 480

abbrev pub default_idle_ttl : ℤ
default_idle_ttl = pos (10 * 60 * second)

abbrev pub default_max_ips : ℤ
default_max_ips = pos 10000

abbrev pub default_manifest_bytes : ℤ
default_manifest_bytes = pos (256 * 1024 * 1024)

abbrev pub default_blob_bytes : ℤ
default_blob_bytes = pos (512 * 1024 * 1024)

abbrev pub default_timeout : ℤ
default_timeout = pos (5 * second)

-- `http.Client`, as far as the options set it.
pub record HttpClient (T : Type 0) : Type 0 where
  pub transport : Option T
  pub timeout : ℤ

-- `RateLimitOptions`, over the type `O` of the overrides.
pub record RateLimitOptions (O : Type 0) : Type 0 where
  pub disabled : Bool
  pub requests_per_minute : ℤ
  pub burst : ℤ
  pub idle_ttl : ℤ
  pub max_ips : ℤ
  pub ip_overrides : List O
  pub limited_ips : Option Tracker

-- `ManifestCacheOptions` and `BlobCacheOptions`.
pub record ByteCacheOptions : Type 0 where
  pub disabled : Bool
  pub max_bytes : ℤ

-- `Options`; those of the token and /v2/ caches are a flag each.
pub record Options (T O : Type 0) : Type 0 where
  pub transport : Option T
  pub client : Option (HttpClient T)
  pub rate_limit : RateLimitOptions O
  pub manifest_cache : ByteCacheOptions
  pub blob_cache : ByteCacheOptions
  pub token_cache_disabled : Bool
  pub v2_cache_disabled : Bool

-- `if x <= 0 { x = d }`.
unfoldable pub positive_or : ℤ → ℤ → ℤ
positive_or x d = if is_pos x then x else d

abbrev pub timeout_or : ℤ → ℤ → ℤ
timeout_or (pos n) d = elim n [ zero ↦ d | suc m ↦ pos (suc m) ]
timeout_or (negsuc n) d = negsuc n

module _ {T : Type 0} where
  abbrev pub or_some : Option T → Option T → Option T
  or_some none d = d
  or_some (some t) d = some t

  -- A nil client is made over the transport of the options; one without a timeout gets the default.
  unfoldable pub client_with_defaults : Option T → Option (HttpClient T) → HttpClient T
  client_with_defaults transport none = record { transport = transport; timeout = default_timeout }
  client_with_defaults transport (some c) = record c {
    timeout = timeout_or c.timeout default_timeout;
  }

module _ {T O : Type 0} where
  -- `DefaultOptions`, with the clone of the default transport.
  unfoldable pub default_options : T → Options T O
  default_options transport = record {
    transport = some transport;
    client = some (record { transport = some transport; timeout = default_timeout });
    rate_limit = record {
      disabled = false;
      requests_per_minute = default_requests_per_minute;
      burst = default_burst;
      idle_ttl = default_idle_ttl;
      max_ips = default_max_ips;
      ip_overrides = [];
      limited_ips = none;
    };
    manifest_cache = record { disabled = false; max_bytes = default_manifest_bytes };
    blob_cache = record { disabled = false; max_bytes = default_blob_bytes };
    token_cache_disabled = false;
    v2_cache_disabled = false;
  }

  -- `withDefaults`.
  unfoldable pub with_defaults : T → Options T O → Options T O
  with_defaults default_transport o =
      let defaults : Options T O = default_options default_transport in
      let transport = or_some o.transport defaults.transport in
      record o {
        transport = transport;
        client = some (client_with_defaults transport o.client);
        rate_limit = record (o.rate_limit) {
          requests_per_minute =
              positive_or o.rate_limit.requests_per_minute defaults.rate_limit.requests_per_minute;
          burst = positive_or o.rate_limit.burst defaults.rate_limit.burst;
          idle_ttl = positive_or o.rate_limit.idle_ttl defaults.rate_limit.idle_ttl;
          max_ips = positive_or o.rate_limit.max_ips defaults.rate_limit.max_ips;
        };
        manifest_cache = record (o.manifest_cache) {
          max_bytes = positive_or o.manifest_cache.max_bytes defaults.manifest_cache.max_bytes;
        };
        blob_cache = record (o.blob_cache) {
          max_bytes = positive_or o.blob_cache.max_bytes defaults.blob_cache.max_bytes;
        };
      }
