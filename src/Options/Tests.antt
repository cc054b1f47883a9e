-- ===== src/Options/Tests.antt =====
-- Runs of the defaults, and their theorems at concrete options, over numbered round trippers.
use registry_redirect.Prelude.{ℕ, ◌≡◌, refl, true, false, none, some, [], pos, negsuc}
use registry_redirect.Options.{
  Options, default_options, positive_or, client_with_defaults, with_defaults, default_timeout,
}

program : Unit {0}
unfolding default_options positive_or client_with_defaults with_defaults
program = tt

-- No round tripper, a client of its own, and the limits missing or negative.
abbrev sparse : Options ℕ ℕ
sparse = record {
  transport = none;
  client = some (record { transport = some 3; timeout = pos 0 });
  rate_limit = record {
    disabled = true;
    requests_per_minute = pos 7;
    burst = negsuc 0;
    idle_ttl = pos 0;
    max_ips = pos 0;
    ip_overrides = [];
    limited_ips = none;
  };
  manifest_cache = record { disabled = false; max_bytes = pos 0 };
  blob_cache = record { disabled = true; max_bytes = pos 9 };
  token_cache_disabled = true;
  v2_cache_disabled = false;
}

filled :
    ((with_defaults 1 sparse).transport ≡ some 1)
    × ((with_defaults 1 sparse).client
        ≡ some (record { transport = some 3; timeout = default_timeout }))
    × ((with_defaults 1 sparse).rate_limit.requests_per_minute ≡ pos 7)
    × ((with_defaults 1 sparse).rate_limit.burst ≡ pos 480)
    × ((with_defaults 1 sparse).token_cache_disabled ≡ true)
unfolding program
filled = (refl, refl, refl, refl, refl)
