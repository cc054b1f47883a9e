-- ===== src/Server.antt =====
-- How the server comes to be and what it serves: `redirectOptions`, the first half of `serve` and
-- `rateLimitedIPsHandler` of main.go, with `NewWithOptions` of pkg/redirect/redirect.go. The flags are
-- arguments. Which path leads to which handler is left to github.com/gorilla/mux.
pub mod Stepping
pub mod Serving
pub mod Starting
pub mod Configuring
mod Tests
use registry_redirect.Prelude.{
  ℕ, ◌*◌, ◌^◌, ◌/◌, Bool, true, false, not, ◌&&◌, Option, none, some, List, [], ◌∷◌, Bytes, codes,
  ◌⊎◌, inl, inr, ℤ, pos, pos_part, if◌then◌else◌,
}
use registry_redirect.BlobCache.{Store, num_counters}
use registry_redirect.Config.{LoadError, Reader, load, split_ip_rate_limit_config_paths}
use registry_redirect.Header
use registry_redirect.Http.{Writer, error, write}
use registry_redirect.ManifestCache
use registry_redirect.Options.{
  Options, RateLimitOptions, ByteCacheOptions, default_options, with_defaults, second,
}
use registry_redirect.Paths.{bytes_eq}
use registry_redirect.RateLimiter.Deps.{Deps}
use registry_redirect.RateLimiter.Limits.{Override}
use registry_redirect.RateLimiter.State.{IpRateLimiter, LimiterOptions, new_ip_rate_limiter}
use registry_redirect.Redirect.{World, Redirect, Result}
use registry_redirect.Request.{Request}
use registry_redirect.ResponseCache
use registry_redirect.Tracker
use registry_redirect.Tracker.{Tracker, Count, top}
use registry_redirect.V2.{v2}

abbrev pub anonymous_token_ttl : ℕ
anonymous_token_ttl = 45 * second

abbrev pub token_cache_max_entries : ℕ
token_cache_max_entries = 1024

abbrev pub v2_cache_ttl : ℕ
v2_cache_ttl = 60 * second

-- `defaultRateLimitedIPTrackerLimit` of main.go.
abbrev pub default_tracker_limit : ℕ
default_tracker_limit = 50

-- The handler of /rate-limited-ips, over the JSON of a list, which is nil where the tracker is.
unfoldable pub rate_limited_ips_handler :
    (Option (List Count) → Bytes) → Option Tracker → Request → Writer → Writer
rate_limited_ips_handler encode tracker r w =
    if bytes_eq r.method (codes "GET")
    then write (encode (elim tracker [ none ↦ none | some t ↦ some (top (some t)) ])) (record w {
      header = Header.set w.header (codes "Content-Type") (codes "application/json");
    })
    else error (codes "method not allowed") 405
        (record w { header = Header.set w.header (codes "Allow") (codes "GET") })

abbrev pub new_manifest_cache : ByteCacheOptions → Option ManifestCache.Cache
new_manifest_cache o = if o.disabled then none else some (ManifestCache.init (pos_part o.max_bytes))

abbrev pub new_response_cache : Bool → ℕ → ℕ → Option ResponseCache.Cache
new_response_cache disabled ttl max_entries =
    if disabled then none else some (ResponseCache.init ttl max_entries)

module _ (deps : Deps) where
  abbrev pub limiter_options : RateLimitOptions (Override deps) → LimiterOptions deps
  limiter_options o = record {
    requests_per_minute = o.requests_per_minute;
    burst = o.burst;
    idle_ttl = pos_part o.idle_ttl;
    max_ips = o.max_ips;
    ip_overrides = o.ip_overrides;
    limited_ips = o.limited_ips;
  }

  abbrev pub new_limiter : RateLimitOptions (Override deps) → Option (IpRateLimiter deps)
  new_limiter o = if o.disabled then none else some (new_ip_rate_limiter deps (limiter_options o))

module _ (deps : Deps) {T : Type 0} where
  -- `redirectOptions` from the paths on: the overrides of the files, on the default options. `missing`
  -- says whether an error is `os.ErrNotExist`, and `was_set` whether the flag of the paths was given.
  unfoldable pub options_of :
      Reader deps
      → (LoadError → Bool)
      → T
      → Bool
      → List Bytes
      → LoadError ⊎ Options T (Override deps)
  options_of reader missing transport was_set [] = inr (default_options transport)
  options_of reader missing transport was_set (path ∷ paths) =
      let opts : Options T (Override deps) = default_options transport in
      elim (load deps reader (path ∷ paths)) [
        | inl e ↦ if missing e && not was_set then inr opts else inl e
        | inr overrides ↦
            inr (record opts { rate_limit = record (opts.rate_limit) { ip_overrides = overrides } })
      ]

  unfoldable pub redirect_options :
      Reader deps → (LoadError → Bool) → T → Bool → Bytes → LoadError ⊎ Options T (Override deps)
  redirect_options reader missing transport was_set value =
      options_of reader missing transport was_set (split_ip_rate_limit_config_paths value)

module _ (deps : Deps) {T : Type 0} (store : Store) where
  -- The handler with a given blob cache.
  abbrev pub with_blobs :
      Bytes → Bytes → Bytes → Options T (Override deps) → Option store.State → Redirect deps store
  with_blobs host repo prefix o blobs = record {
    host = host;
    repo = repo;
    prefix = prefix;
    rate_limiter = new_limiter deps o.rate_limit;
    manifest_cache = new_manifest_cache o.manifest_cache;
    blob_cache = blobs;
    token_cache =
        new_response_cache o.token_cache_disabled anonymous_token_ttl token_cache_max_entries;
    v2_cache = new_response_cache o.v2_cache_disabled v2_cache_ttl 1;
  }

  -- `NewWithOptions` up to its router, on options with defaults, over `ristretto.NewCache` with a number
  -- of counters and a budget: `none` where that fails, at which the code panics.
  unfoldable pub new_redirect :
      (ℕ → ℕ → Option store.State)
      → Bytes
      → Bytes
      → Bytes
      → Options T (Override deps)
      → Option (Redirect deps store)
  new_redirect new_store host repo prefix o =
      if o.blob_cache.disabled
      then some (with_blobs host repo prefix o none)
      else (elim (new_store (num_counters (pos_part o.blob_cache.max_bytes))
          (pos_part o.blob_cache.max_bytes)) [
            | none ↦ none
            | some s ↦ some (with_blobs host repo prefix o (some s))
          ])

  unfoldable pub new_with_options :
      (ℕ → ℕ → Option store.State)
      → T
      → Bytes
      → Bytes
      → Bytes
      → Options T (Override deps)
      → Option (Redirect deps store)
  new_with_options new_store transport host repo prefix o =
      new_redirect new_store host repo prefix (with_defaults transport o)

  -- The handler that `serve` starts, or the error of its configuration.
  unfoldable pub serve :
      (ℕ → ℕ → Option store.State)
      → Reader deps
      → (LoadError → Bool)
      → T
      → Bool
      → Bytes
      → Bool
      → Bytes
      → Bytes
      → LoadError ⊎ Option (Redirect deps store)
  serve new_store reader missing transport was_set paths gcr repo prefix =
      let host = if gcr then codes "gcr.io" else codes "ghcr.io" in
      elim (redirect_options deps reader missing transport was_set paths) [
        | inl e ↦ inl e
        | inr opts ↦
            let limited = record (opts.rate_limit) {
              limited_ips = some (Tracker.init (pos default_tracker_limit));
            } in
            inr (
              new_with_options new_store transport host repo prefix
                (record opts { rate_limit = limited }))
      ]

module _ (deps : Deps) (store : Store) (world : World) where
  -- The handler of /v2/ on its fields of the state.
  unfoldable pub handle_v2 : ℕ → ℕ → Request → Redirect deps store → Option (Result deps store)
  handle_v2 now later r s =
      elim (v2 deps world.client (world.method_error r.method) now later r
        (record { host = s.host; rate_limiter = s.rate_limiter; v2_cache = s.v2_cache })) [
          | none ↦ none
          | some res ↦ some (record {
            server = record s {
              rate_limiter = res.server.rate_limiter;
              v2_cache = res.server.v2_cache;
            };
            writer = res.writer;
            asked = res.asked;
          })
        ]
