-- ===== src/Proxy/Outcomes.antt =====
-- What a request for `proxy` can come to, branch by branch.
use registry_redirect.Prelude.{ℕ, ◌≡◌, Bool, true, false, Option, none, some, [], Bytes, inl}
use registry_redirect.BlobCache
use registry_redirect.ManifestCache
use registry_redirect.BlobCache.{Dates, Store}
use registry_redirect.BlobCache.Fresh.{IsFresh}
use registry_redirect.Http.{new_writer, error, write_rate_limited}
use registry_redirect.Manifests.{serve_cached_manifest}
use registry_redirect.Proxy.{
  trim_path, cached_manifest, serve_cached_blob_redirect, prefix_required, url_of,
}
use registry_redirect.Proxy.Sending.{IsSent}
use registry_redirect.RateLimiter.Deps.{Deps}
use registry_redirect.RateLimiter.State.{IpRateLimiter}
use registry_redirect.Redirect.{World, Redirect, Result, new_backend_request}
use registry_redirect.Request.{Request}

module _ (deps : Deps) (store : Store) (world : World) (dates : Dates) where
  -- What a request comes to where the limiter answers `allowed`: the client must name the prefix, or it
  -- is served from a cache, or no request to the registry can be made, or it is refused, or its client
  -- is let through and the registry is asked.
  pub data IsProxied (now : ℕ) (r : Request) (s : Redirect deps store)
      (limiter : Option (IpRateLimiter deps)) (allowed : Bool) (res : Result deps store)
      : Type 0 where
    unprefixed :
        trim_path s.prefix r.host r.path ≡ none
        → res ≡ record { server = s; writer = prefix_required; asked = [] }
        → IsProxied now r s limiter allowed res
    from_manifests :
        (path : Bytes) (entry : ManifestCache.Entry)
        → trim_path s.prefix r.host r.path ≡ some path
        → (cached_manifest r (url_of deps store s r path) s.manifest_cache).1 ≡ some entry
        → res.writer ≡ serve_cached_manifest r (url_of deps store s r path) entry new_writer
        → res.asked ≡ []
        → res.server.rate_limiter ≡ s.rate_limiter
        → IsProxied now r s limiter allowed res
    from_blobs :
        (path : Bytes) (entry : BlobCache.Entry)
        → trim_path s.prefix r.host r.path ≡ some path
        → IsFresh dates now entry
        → res.writer ≡ serve_cached_blob_redirect (url_of deps store s r path) entry new_writer
        → res.asked ≡ []
        → res.server.rate_limiter ≡ s.rate_limiter
        → IsProxied now r s limiter allowed res
    invalid :
        (path text : Bytes)
        → trim_path s.prefix r.host r.path ≡ some path
        → new_backend_request world r.method (url_of deps store s r path) r.header ≡ inl text
        → res.writer ≡ error text 500 new_writer
        → res.asked ≡ []
        → res.server.rate_limiter ≡ s.rate_limiter
        → IsProxied now r s limiter allowed res
    limited :
        allowed ≡ false
        → res.asked ≡ []
        → res.server.rate_limiter ≡ limiter
        → res.writer ≡ write_rate_limited new_writer
        → IsProxied now r s limiter allowed res
    charged :
        (path : Bytes)
        → allowed ≡ true
        → res.server.rate_limiter ≡ limiter
        → trim_path s.prefix r.host r.path ≡ some path
        → IsSent r (url_of deps store s r path) res.asked
        → IsProxied now r s limiter allowed res
