-- ===== src/RateLimiter/History.antt =====
-- The limiter over any sequence of requests.
use registry_redirect.Prelude.{
  ℕ, ◌≡◌, ◌≢◌, Bool, true, some, [], arith, Bool-cases, inl, inr, is_pos, subst,
}
use registry_redirect.ClientIp.{client_ip}
use registry_redirect.Paths.{is_blob_request}
use registry_redirect.Request.{Request}
use registry_redirect.RateLimiter.Bounds.{IsValid, new_ip_rate_limiter-IsValid}
use registry_redirect.RateLimiter.Deps.{Deps}
use registry_redirect.RateLimiter.Requests.{allow_request_exempt, allow_request_lem}
use registry_redirect.RateLimiter.State.{
  IpRateLimiter, LimiterOptions, new_ip_rate_limiter, allow_request,
}

module _ (deps : Deps) where
  -- The limiters that requests of named clients lead to, at any times.
  pub data Reached (o : LimiterOptions deps) : IpRateLimiter deps → Type 0 where
    start : Reached o (new_ip_rate_limiter deps o)
    request :
        (l l' : IpRateLimiter deps) (now : ℕ) (r : Request) (allowed : Bool)
        → Reached o l
        → client_ip r ≢ []
        → allow_request deps now r (some l) ≡ some (some l', allowed)
        → Reached o l'

  request-IsValid :
      (l l' : IpRateLimiter deps) (now : ℕ) (r : Request) (allowed : Bool)
      → IsValid deps l
      → client_ip r ≢ []
      → allow_request deps now r (some l) ≡ some (some l', allowed)
      → IsValid deps l'
  request-IsValid l l' now r allowed h named answer = elim (Bool-cases (is_blob_request r.path)) [
    | inl blob ↦
        let same : l ≡ l' = ground (arith, allow_request_exempt deps now r (some l) (inr blob)) in
        subst (IsValid deps) same h
    | inr other ↦
        let (m, b, given, outcome) = allow_request_lem deps now r l h named other in
        let same : m ≡ l' = ground (arith, given) in subst (IsValid deps) same outcome.valid
  ]

  Reached-IsValid :
      (o : LimiterOptions deps) (l : IpRateLimiter deps)
      → is_pos o.max_ips ≡ true
      → Reached o l
      → IsValid deps l
  Reached-IsValid o _ h start = new_ip_rate_limiter-IsValid deps o h
  Reached-IsValid o _ h (request l l' now r allowed before named answer) =
      request-IsValid l l' now r allowed (Reached-IsValid o l h before) named answer

  -- Where the options leave room for a client, every limiter that the requests of named clients
  -- lead to is within its cap and holds no client twice, and it answers the next request of a
  -- named client.
  pub Reached-answers :
      (o : LimiterOptions deps) (l : IpRateLimiter deps) (now : ℕ) (r : Request)
      → is_pos o.max_ips ≡ true
      → Reached o l
      → client_ip r ≢ []
      → IsValid deps l
        × ((l' : IpRateLimiter deps) × (allowed : Bool) × (allow_request deps now r (some l)
              ≡ some (some l', allowed)))
  Reached-answers o l now r h before named =
      let valid = Reached-IsValid o l h before in (valid, answers)
    where
      answers :
          (l' : IpRateLimiter deps) × (allowed : Bool) × (allow_request deps now r (some l)
            ≡ some (some l', allowed))
      answers = elim (Bool-cases (is_blob_request r.path)) [
        | inl blob ↦ (l, true, allow_request_exempt deps now r (some l) (inr blob))
        | inr other ↦
            let (l', allowed, given, _) =
              allow_request_lem deps now r l (Reached-IsValid o l h before) named other in
            (l', allowed, given)
      ]
