-- ===== src/Proxy/Asking.antt =====
-- `proxy` comes to an end for every request that a route leads to it: which requests it sends to the
-- registry, to which URL and with what authorization, who is charged, and what it leaves.
use registry_redirect.Prelude.{
  ℕ, ◌≤◌, ◌≡◌, refl, Bool, true, false, Option, Option-cases, some, [], Bytes, arith, ◌⊎◌, inl, inr,
  length,
}
use registry_redirect.BlobCache
use registry_redirect.BlobCache.{Dates, Store}
use registry_redirect.BlobCache.Fresh.{IsStore, IsFresh, HoldsFresh}
use registry_redirect.Http.{new_writer, error, write_rate_limited, Outgoing}
use registry_redirect.Manifests.{serve_cached_manifest}
use registry_redirect.Proxy.{
  trim_path, cached_manifest, cached_blob, blob_redirect_cache_key, serve_cached_blob_redirect,
  prefix_required, ask, past_manifest, proxy_url, url_of, proxy,
}
use registry_redirect.Proxy.Ending.{cached_manifest-IsHeld}
use registry_redirect.Proxy.Granting.{IsSound}
use registry_redirect.Proxy.Sending.{authorize-IsDone}
use registry_redirect.RateLimiter.Deps.{Deps}
use registry_redirect.RateLimiter.State.{IpRateLimiter, allow_request}
use registry_redirect.Redirect.{World, Redirect, Result, new_backend_request}
use registry_redirect.Request.{Request}
use registry_redirect.Strings.{split}
use registry_redirect.Tokens.{Course}
use registry_redirect.Tokens.Charging.{new_backend_request-inr}
use registry_redirect.Tokens.Cached.{IsGood-later}
use registry_redirect.Proxy.Outcomes.{
  IsProxied, unprefixed, from_manifests, from_blobs, invalid, limited, charged,
}

made_cases :
    (m : Bytes ⊎ Outgoing) → ((text : Bytes) × (m ≡ inl text)) ⊎ ((out : Outgoing) × (m ≡ inr out))
made_cases (inl text) = inl (text, refl)
made_cases (inr out) = inr (out, refl)

module _ (deps : Deps) (store : Store) (world : World) (dates : Dates) (law : IsStore store) where
  -- The state and the time past the caches.
  IsSound-later :
      (course : Course) (s : Redirect deps store)
      → course.now ≤ course.later
      → IsSound deps store world dates course.now s
      → IsSound deps store world dates course.later s
  IsSound-later course s le h = record {
    manifests = h.manifests;
    tokens = IsGood-later world course.now course.later s.token_cache le h.tokens;
    blobs = h.blobs;
  }

  let_through-IsProxied :
      (course : Course) (later : ℕ) (r : Request) (path : Bytes) (out : Outgoing)
      (s s0 : Redirect deps store) (limiter : Option (IpRateLimiter deps)) (allowed : Bool)
      → course.now ≤ course.later
      → 5 ≤ length (split b'/' r.path)
      → trim_path s0.prefix r.host r.path ≡ some path
      → out ≡ record { method = r.method; url = url_of deps store s0 r path; header = r.header }
      → IsSound deps store world dates course.now s
      → allow_request deps course.now r s.rate_limiter ≡ some (limiter, allowed)
      → (res : Result deps store) × (ask deps store world dates course later r
            (url_of deps store s0 r path)
            (inr out)
            s
          ≡ some res)
        × IsProxied deps store world dates course.now r s0 limiter allowed res
        × IsSound deps store world dates course.later res.server
  unfolding ask
  let_through-IsProxied course later r path out s s0 limiter false le long trimmed made h answer = (
    record {
      server = record s { rate_limiter = limiter };
      writer = write_rate_limited new_writer;
      asked = [];
    },
    rw (answer, ask) refl,
    limited refl refl refl refl,
    IsSound-later course (record s { rate_limiter = limiter }) le
        (record { manifests = h.manifests; tokens = h.tokens; blobs = h.blobs }),
  )
  let_through-IsProxied course later r path out s s0 limiter true le long trimmed made h answer =
      let (res, done, d) =
        authorize-IsDone deps store world dates law course later r (url_of deps store s0 r path) out
          (record s { rate_limiter = limiter }) le long made
          (record { manifests = h.manifests; tokens = h.tokens; blobs = h.blobs }) in
      (res, rw (answer, ask) done, charged path refl d.limiter trimmed d.sent, d.sound)

  ask-IsProxied :
      (course : Course) (later : ℕ) (r : Request) (path : Bytes) (s s0 : Redirect deps store)
      (limiter : Option (IpRateLimiter deps)) (allowed : Bool)
      → course.now ≤ course.later
      → 5 ≤ length (split b'/' r.path)
      → trim_path s0.prefix r.host r.path ≡ some path
      → s.rate_limiter ≡ s0.rate_limiter
      → IsSound deps store world dates course.now s
      → allow_request deps course.now r s.rate_limiter ≡ some (limiter, allowed)
      → (res : Result deps store) × (ask deps store world dates course later r
            (url_of deps store s0 r path)
            (new_backend_request world r.method (url_of deps store s0 r path) r.header)
            s
          ≡ some res)
        × IsProxied deps store world dates course.now r s0 limiter allowed res
        × IsSound deps store world dates course.later res.server
  unfolding ask
  ask-IsProxied course later r path s s0 limiter allowed le long trimmed kept h answer =
      elim (made_cases
        (new_backend_request world r.method (url_of deps store s0 r path) r.header)) [
          | inl (text, bad) ↦ (
            record { server = s; writer = error text 500 new_writer; asked = [] },
            rw (bad, ask) refl,
            invalid path text trimmed bad refl refl kept,
            IsSound-later course s le h,
          )
          | inr (out, good) ↦ rw good (
              let_through-IsProxied course later r path out s s0 limiter allowed le long trimmed
                (new_backend_request-inr world r.method (url_of deps store s0 r path) r.header out
                  good)
                h answer)
        ]

  cached_blob-IsFresh :
      (now : ℕ) (r : Request) (url : Bytes) (c : Option store.State) (entry : BlobCache.Entry)
      → HoldsFresh store dates c
      → cached_blob deps store world dates now r url c ≡ some entry
      → IsFresh dates now entry
  unfolding cached_blob
  cached_blob-IsFresh now r url c entry h hit =
      elim (Option-cases (blob_redirect_cache_key deps store world dates c r url)) [
        | inl other ↦ absurd (ground arith)
        | inr (key, own) ↦ h now key entry (ground arith)
      ]

  past_manifest-IsProxied :
      (course : Course) (later : ℕ) (r : Request) (path : Bytes) (s s0 : Redirect deps store)
      (limiter : Option (IpRateLimiter deps)) (allowed : Bool)
      → course.now ≤ course.later
      → 5 ≤ length (split b'/' r.path)
      → trim_path s0.prefix r.host r.path ≡ some path
      → s.rate_limiter ≡ s0.rate_limiter
      → IsSound deps store world dates course.now s
      → allow_request deps course.now r s.rate_limiter ≡ some (limiter, allowed)
      → (res : Result deps store) × (past_manifest deps store world dates course later r
            (url_of deps store s0 r path)
            s
          ≡ some res)
        × IsProxied deps store world dates course.now r s0 limiter allowed res
        × IsSound deps store world dates course.later res.server
  unfolding past_manifest
  past_manifest-IsProxied course later r path s s0 limiter allowed le long trimmed kept h answer =
      let url = url_of deps store s0 r path in
      elim (Option-cases (cached_blob deps store world dates course.now r url s.blob_cache)) [
        | inr (entry, hit) ↦ (
          record {
            server = s;
            writer = serve_cached_blob_redirect url entry new_writer;
            asked = [];
          },
          rw (hit, past_manifest) refl,
          from_blobs path entry trimmed
              (cached_blob-IsFresh course.now r url s.blob_cache entry h.blobs hit) refl refl kept,
          IsSound-later course s le h,
        )
        | inl miss ↦
            rw (miss, past_manifest)
              (ask-IsProxied course later r path s s0 limiter allowed le long trimmed kept h answer)
      ]

  pub proxy-IsProxied :
      (course : Course) (later : ℕ) (r : Request) (s : Redirect deps store)
      (limiter : Option (IpRateLimiter deps)) (allowed : Bool)
      → course.now ≤ course.later
      → 5 ≤ length (split b'/' r.path)
      → IsSound deps store world dates course.now s
      → allow_request deps course.now r s.rate_limiter ≡ some (limiter, allowed)
      → (res : Result deps store) × (proxy deps store world dates course later r s ≡ some res)
        × IsProxied deps store world dates course.now r s limiter allowed res
        × IsSound deps store world dates course.later res.server
  unfolding proxy proxy_url
  proxy-IsProxied course later r s limiter allowed le long h answer =
      elim (Option-cases (trim_path s.prefix r.host r.path)) [
        | inl missing ↦ (
          record { server = s; writer = prefix_required; asked = [] },
          rw (missing, proxy) refl,
          unprefixed missing refl,
          IsSound-later course s le h,
        )
        | inr (path, trimmed) ↦
            let url = url_of deps store s r path in
            let looked : Redirect deps store = record s {
              manifest_cache = (cached_manifest r url s.manifest_cache).0;
            } in
            let sound : IsSound deps store world dates course.now looked = record {
              manifests = cached_manifest-IsHeld r url s.manifest_cache h.manifests;
              tokens = h.tokens;
              blobs = h.blobs;
            } in
            elim (Option-cases (cached_manifest r url s.manifest_cache).1) [
              | inr (entry, hit) ↦ (
                record {
                  server = looked;
                  writer = serve_cached_manifest r url entry new_writer;
                  asked = [];
                },
                rw (trimmed, proxy, hit, proxy_url) refl,
                from_manifests path entry trimmed hit refl refl refl,
                IsSound-later course looked le sound,
              )
              | inl miss ↦
                  let (res, done, p, kept) =
                    past_manifest-IsProxied course later r path looked s limiter allowed le long
                      trimmed refl sound answer in
                  (res, rw (trimmed, proxy, miss, proxy_url) done, p, kept)
            ]
      ]
