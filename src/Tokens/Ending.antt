-- ===== src/Tokens/Ending.antt =====
-- The handler of /token comes to an end where the limiter does, and leaves the other caches alone.
use registry_redirect.Prelude.{
  ◌≡◌, refl, ◌⊎◌, inl, inr, Bool, true, false, Bool-cases, Option, Option-cases, some, [], ◌∷◌,
  Bytes,
}
use registry_redirect.BlobCache.{Store}
use registry_redirect.Http.{new_writer, error, Outgoing}
use registry_redirect.RateLimiter.Deps.{Deps}
use registry_redirect.RateLimiter.State.{IpRateLimiter, allow_request}
use registry_redirect.Redirect.{World, Redirect, Result, new_backend_request}
use registry_redirect.Request.{Request}
use registry_redirect.ResponseCache
use registry_redirect.Tokens.{
  Course, fetch_anonymous_token, relay, relay_fetched, refused, serve_fetched,
  serve_anonymous_token, relay_back, relay_request, token, is_anonymous, token_url, token_values,
}

module _ (deps : Deps) (store : Store) where
  -- What a request for a token leaves, where the limiter answers with a state `limiter`.
  pub record IsLeft (s : Redirect deps store) (limiter : Option (IpRateLimiter deps))
      (res : Result deps store) : Type 0 where
    pub limits : (res.server.rate_limiter ≡ s.rate_limiter) ⊎ (res.server.rate_limiter ≡ limiter)
    pub manifests : res.server.manifest_cache ≡ s.manifest_cache
    pub blobs : res.server.blob_cache ≡ s.blob_cache

module _ (deps : Deps) (store : Store) (world : World) where
  serve_fetched-IsLeft :
      (course : Course) (r : Request) (url : Bytes) (s : Redirect deps store)
      (limiter : Option (IpRateLimiter deps)) (allowed : Bool)
      → allow_request deps course.now r s.rate_limiter ≡ some (limiter, allowed)
      → (res : Result deps store) × (serve_fetched deps store world course r url s ≡ some res)
        × IsLeft deps store s limiter res
  unfolding serve_fetched
  serve_fetched-IsLeft course r url s limiter false answer = (
    refused deps store world (record s { rate_limiter = limiter }),
    rw (answer, serve_fetched) refl,
    record { limits = inr refl; manifests = refl; blobs = refl },
  )
  serve_fetched-IsLeft course r url s limiter true answer = (
    record {
      server = record s {
        rate_limiter = limiter;
        token_cache = (fetch_anonymous_token world course url s.token_cache).cache;
      };
      writer = relay_fetched url (fetch_anonymous_token world course url s.token_cache).result;
      asked = (fetch_anonymous_token world course url s.token_cache).asked;
    },
    rw (answer, serve_fetched) refl,
    record { limits = inr refl; manifests = refl; blobs = refl },
  )

  serve_anonymous_token-IsLeft :
      (course : Course) (r : Request) (url : Bytes) (s : Redirect deps store)
      (limiter : Option (IpRateLimiter deps)) (allowed : Bool)
      → allow_request deps course.now r s.rate_limiter ≡ some (limiter, allowed)
      → (res : Result deps store) × (serve_anonymous_token deps store world course r url s
          ≡ some res)
        × IsLeft deps store s limiter res
  unfolding serve_anonymous_token
  serve_anonymous_token-IsLeft course r url s limiter allowed answer =
      let looked : Redirect deps store = record s {
        token_cache = (ResponseCache.get course.now url s.token_cache).0;
      } in
      elim (Option-cases (ResponseCache.get course.now url s.token_cache).1) [
        | inr (e, hit) ↦ (
          record { server = looked; writer = relay url e; asked = [] },
          rw (hit, serve_anonymous_token) refl,
          record { limits = inl refl; manifests = refl; blobs = refl },
        )
        | inl miss ↦
            let (res, done, left) =
              serve_fetched-IsLeft course r url looked limiter allowed answer in
            (
              res,
              rw (miss, serve_anonymous_token) done,
              record { limits = left.limits; manifests = left.manifests; blobs = left.blobs },
            )
      ]

  relay_request-IsLeft :
      (course : Course) (r : Request) (s : Redirect deps store) (made : Bytes ⊎ Outgoing)
      (limiter : Option (IpRateLimiter deps)) (allowed : Bool)
      → allow_request deps course.now r s.rate_limiter ≡ some (limiter, allowed)
      → (res : Result deps store) × (relay_request deps store world course r s made ≡ some res)
        × IsLeft deps store s limiter res
  unfolding relay_request
  relay_request-IsLeft course r s (inl text) limiter allowed answer = (
    record { server = s; writer = error text 500 new_writer; asked = [] },
    refl,
    record { limits = inl refl; manifests = refl; blobs = refl },
  )
  relay_request-IsLeft course r s (inr out) limiter false answer = (
    refused deps store world (record s { rate_limiter = limiter }),
    rw (answer, relay_request) refl,
    record { limits = inr refl; manifests = refl; blobs = refl },
  )
  relay_request-IsLeft course r s (inr out) limiter true answer = (
    record {
      server = record s { rate_limiter = limiter };
      writer = relay_back (world.url_text out.url) (world.client out);
      asked = out ∷ [];
    },
    rw (answer, relay_request) refl,
    record { limits = inr refl; manifests = refl; blobs = refl },
  )

  pub token-IsLeft :
      (course : Course) (r : Request) (s : Redirect deps store)
      (limiter : Option (IpRateLimiter deps)) (allowed : Bool)
      → allow_request deps course.now r s.rate_limiter ≡ some (limiter, allowed)
      → (res : Result deps store) × (token deps store world course r s ≡ some res)
        × IsLeft deps store s limiter res
  unfolding token
  token-IsLeft course r s limiter allowed answer =
      let url = token_url s.host (token_values s.prefix s.repo r.query) in
      elim (Bool-cases (is_anonymous r)) [
        | inl anonymous ↦
            rw (anonymous, token)
              (serve_anonymous_token-IsLeft course r url s limiter allowed answer)
        | inr own ↦
            rw (own, token)
              (relay_request-IsLeft course r s (new_backend_request world r.method url r.header)
                limiter allowed answer)
      ]
