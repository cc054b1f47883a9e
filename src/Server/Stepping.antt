-- ===== src/Server/Stepping.antt =====
-- One request at a running server: it ends, and the server is running afterwards.
use registry_redirect.Prelude.{
  ℕ, ◌≤◌, ◌≡◌, ◌≢◌, refl, sym, ap, subst, ◌⊎◌, inl, inr, Bool, true, Bool-cases, Option, some, none,
  [], length,
}
use registry_redirect.BlobCache.{Dates, Store}
use registry_redirect.BlobCache.Fresh.{IsStore}
use registry_redirect.ClientIp.{client_ip}
use registry_redirect.Paths.{is_blob_request}
use registry_redirect.Proxy.{proxy}
use registry_redirect.Proxy.Outcomes.{
  IsProxied, unprefixed, from_manifests, from_blobs, invalid, limited, charged,
}
use registry_redirect.Proxy.Asking.{proxy-IsProxied}
use registry_redirect.Proxy.Ending.{IsHeld}
use registry_redirect.RateLimiter.Deps.{Deps}
use registry_redirect.RateLimiter.Requests.{allow_request_exempt, allow_request_lem}
use registry_redirect.RateLimiter.State.{IpRateLimiter, allow_request}
use registry_redirect.Redirect.{World, Redirect, Result}
use registry_redirect.Request.{Request}
use registry_redirect.Server.{handle_v2}
use registry_redirect.Server.Starting.{IsLimited, IsRunning}
use registry_redirect.Strings.{split}
use registry_redirect.Tokens.{Course, token}
use registry_redirect.Tokens.Ending.{token-IsLeft}
use registry_redirect.Tokens.Cached.{IsGood-later}
use registry_redirect.Tokens.Keeping.{token-IsGood}
use registry_redirect.V2.Ending.{v2-IsLeft}

allow_request-IsLimited :
    (deps : Deps) (now : ℕ) (r : Request) (l : Option (IpRateLimiter deps))
    → IsLimited deps l
    → client_ip r ≢ []
    → (limiter : Option (IpRateLimiter deps)) × (allowed : Bool) × (allow_request deps now r l
        ≡ some (limiter, allowed))
      × IsLimited deps limiter
allow_request-IsLimited deps now r none h named =
    (none, true, allow_request_exempt deps now r none (inl refl), tt)
allow_request-IsLimited deps now r (some l) h named = elim (Bool-cases (is_blob_request r.path)) [
  | inl blob ↦ (some l, true, allow_request_exempt deps now r (some l) (inr blob), h)
  | inr other ↦
      let (l', allowed, answer, outcome) = allow_request_lem deps now r l h named other in
      (some l', allowed, answer, outcome.valid)
]

module _ (deps : Deps) (store : Store) (world : World) (dates : Dates) (law : IsStore store) where
  proxied-limits :
      (now : ℕ) (r : Request) (s : Redirect deps store) (limiter : Option (IpRateLimiter deps))
      (allowed : Bool) (res : Result deps store)
      → IsProxied deps store world dates now r s limiter allowed res
      → (res.server.rate_limiter ≡ s.rate_limiter) ⊎ (res.server.rate_limiter ≡ limiter)
  proxied-limits now r s limiter allowed res (unprefixed missing e) =
      inl (ap (λ (x : Result deps store). x.server.rate_limiter) e)
  proxied-limits now r s limiter allowed res
        (from_manifests path entry trimmed hit writer asked same) =
      inl same
  proxied-limits now r s limiter allowed res
        (from_blobs path entry trimmed fresh writer asked same) =
      inl same
  proxied-limits now r s limiter allowed res (invalid path text trimmed bad writer asked same) =
      inl same
  proxied-limits now r s limiter allowed res (limited refused asked same writer) = inr same
  proxied-limits now r s limiter allowed res (charged path yes_allowed same trimmed sent) = inr same

  IsLimited-left :
      (s s' l : Option (IpRateLimiter deps))
      → IsLimited deps s
      → IsLimited deps l
      → (s' ≡ s) ⊎ (s' ≡ l)
      → IsLimited deps s'
  IsLimited-left s s' l h k (inl same) = rw same h
  IsLimited-left s s' l h k (inr same) = rw same k

  -- The next request.
  pub proxy-IsRunning :
      (course : Course) (later : ℕ) (r : Request) (s : Redirect deps store)
      → course.now ≤ course.later
      → 5 ≤ length (split b'/' r.path)
      → client_ip r ≢ []
      → IsRunning deps store world dates course.now s
      → (res : Result deps store) × (proxy deps store world dates course later r s ≡ some res)
        × IsRunning deps store world dates course.later res.server
  proxy-IsRunning course later r s le routed named h =
      let (limiter, allowed, answer, kept) =
        allow_request-IsLimited deps course.now r s.rate_limiter h.limited named in
      let (res, done, p, sound) =
        proxy-IsProxied deps store world dates law course later r s limiter allowed le routed
          h.sound answer in
      (
        res,
        done,
        record {
          sound = sound;
          limited =
              IsLimited-left s.rate_limiter res.server.rate_limiter limiter h.limited kept
                (proxied-limits course.now r s limiter allowed res p);
        },
      )

  pub token-IsRunning :
      (course : Course) (r : Request) (s : Redirect deps store)
      → course.now ≤ course.later
      → client_ip r ≢ []
      → IsRunning deps store world dates course.now s
      → (res : Result deps store) × (token deps store world course r s ≡ some res)
        × IsRunning deps store world dates course.later res.server
  token-IsRunning course r s le named h =
      let (limiter, allowed, answer, kept) =
        allow_request-IsLimited deps course.now r s.rate_limiter h.limited named in
      let (res, done, left) = token-IsLeft deps store world course r s limiter allowed answer in
      (
        res,
        done,
        record {
          sound = record {
            manifests = subst IsHeld (sym left.manifests) h.sound.manifests;
            tokens = (token-IsGood deps store world course r s le h.sound.tokens).0 res done;
            blobs = rw left.blobs h.sound.blobs;
          };
          limited =
              IsLimited-left s.rate_limiter res.server.rate_limiter limiter h.limited kept
                left.limits;
        },
      )

  pub v2-IsRunning :
      (now later : ℕ) (r : Request) (s : Redirect deps store)
      → now ≤ later
      → client_ip r ≢ []
      → IsRunning deps store world dates now s
      → (res : Result deps store) × (handle_v2 deps store world now later r s ≡ some res)
        × IsRunning deps store world dates later res.server
  unfolding handle_v2
  v2-IsRunning now later r s le named h =
      let (limiter, allowed, answer, kept) =
        allow_request-IsLimited deps now r s.rate_limiter h.limited named in
      let (res, done, left) =
        v2-IsLeft deps world.client (world.method_error r.method) now later r
          (record { host = s.host; rate_limiter = s.rate_limiter; v2_cache = s.v2_cache }) limiter
          allowed answer in
      (
        record {
          server = record s {
            rate_limiter = res.server.rate_limiter;
            v2_cache = res.server.v2_cache;
          };
          writer = res.writer;
          asked = res.asked;
        },
        rw (done, handle_v2) refl,
        record {
          sound = record {
            manifests = h.sound.manifests;
            tokens = IsGood-later world now later s.token_cache le h.sound.tokens;
            blobs = h.sound.blobs;
          };
          limited =
              IsLimited-left s.rate_limiter res.server.rate_limiter limiter h.limited kept left;
        },
      )
