-- ===== src/RateLimiter/Requests.antt =====
-- What `allowRequest` does to the limiter and to the tracker of refused clients.
use registry_redirect.Prelude.{
  ℕ, ◌+◌, ◌<◌, ◌≡◌, ◌≢◌, ◌⊎◌, refl, ap, Bool, true, false, Option, none, some, [], Bytes,
  Bytes-discrete, arith, if◌then◌else◌,
}
use registry_redirect.ClientIp.{client_ip}
use registry_redirect.GoMap.{lookup, insert, lookup-sweep, lookup-insert_self}
use registry_redirect.Paths.{is_blob_request}
use registry_redirect.RateLimiter.Bounds.{IsValid, IsServed, allow-IsServed}
use registry_redirect.RateLimiter.Clients.{Client, is_idle}
use registry_redirect.RateLimiter.Deps.{Deps}
use registry_redirect.RateLimiter.State.{
  IpRateLimiter, remove_idle, trim_idle, client_for, client, recorded, allow_request,
}
use registry_redirect.Request.{Request}
use registry_redirect.Tracker.{record_ip}

module _ (deps : Deps) where
  open deps use {Limiter}

  -- A request without a limiter, or for a blob, is allowed and leaves no trace.
  pub allow_request_exempt :
      (now : ℕ) (r : Request) (l : Option (IpRateLimiter deps))
      → (l ≡ none) ⊎ (is_blob_request r.path ≡ true)
      → allow_request deps now r l ≡ some (l, true)
  unfolding allow_request
  allow_request_exempt now r none h = refl
  allow_request_exempt now r (some l) h = ground arith

  -- The outcome of a request that the limiter looks at.
  pub record IsOutcome (ip : Bytes) (l l' : IpRateLimiter deps) (allowed : Bool) : Type 0 where
    pub valid : IsValid deps l'
    pub tracker : l'.limited_ips ≡ (if allowed then l.limited_ips else record_ip ip l.limited_ips)

  recorded-IsOutcome :
      (ip : Bytes) (l l' : IpRateLimiter deps) (b : Bool)
      → IsServed deps ip l l'
      → (l'' : IpRateLimiter deps) × (recorded deps ip (l', b) ≡ (some l'', b))
        × IsOutcome ip l l'' b
  recorded-IsOutcome ip l l' true s = (l', refl, record { valid = s.valid; tracker = s.tracker })
  recorded-IsOutcome ip l l' false s = (
    record l' { limited_ips = record_ip ip l'.limited_ips },
    refl,
    record {
      valid = record { positive = s.valid.positive; bounded = s.valid.bounded };
      tracker = ap (record_ip ip) s.tracker;
    },
  )

  -- From a valid limiter, a request that is not for a blob, of a client whose address is not
  -- empty, gets an answer. The limiter stays valid, and the tracker records the client if the
  -- request is refused, and is left alone if it is allowed.
  pub allow_request_lem :
      (now : ℕ) (r : Request) (l : IpRateLimiter deps)
      → IsValid deps l
      → client_ip r ≢ []
      → is_blob_request r.path ≡ false
      → (l' : IpRateLimiter deps) × (allowed : Bool) × (allow_request deps now r (some l)
          ≡ some (some l', allowed))
        × IsOutcome (client_ip r) l l' allowed
  unfolding allow_request
  allow_request_lem now r l h p other =
      let (l', b, answer, s) = allow-IsServed deps (client_ip r) now l p h in
      let (l'', shape, outcome) = recorded-IsOutcome (client_ip r) l l' b s in
      (l'', b, rw (other, allow_request, answer) (ap some shape), outcome)

  trim_idle-keeps :
      (ip : Bytes) (now : ℕ) (c : Client Limiter) (l : IpRateLimiter deps)
      → IsValid deps l
      → lookup Bytes-discrete ip l.clients ≡ some c
      → now < c.last_seen + l.idle_ttl
      → lookup Bytes-discrete ip (trim_idle deps now l).clients ≡ some c
  unfolding trim_idle remove_idle
  trim_idle-keeps ip now c l h found fresh = ground (
    arith,
    lookup-sweep Bytes-discrete (λ _ c. is_idle l.idle_ttl now c) ip l.clients h.bounded.is_map,
  )

  -- From a valid limiter, `client` gives a client that it holds, and that was last seen less than
  -- the idle time ago, the bucket that it had, and counts it as seen now.
  pub client_keeps :
      (ip : Bytes) (now : ℕ) (c : Client Limiter) (l : IpRateLimiter deps)
      → IsValid deps l
      → lookup Bytes-discrete ip l.clients ≡ some c
      → now < c.last_seen + l.idle_ttl
      → (l' : IpRateLimiter deps) × (client deps ip now l ≡ some (l', c.limiter))
        × (lookup Bytes-discrete ip l'.clients ≡ some (record c { last_seen = now }))
  unfolding client client_for
  client_keeps ip now c l h found fresh =
      let kept = trim_idle-keeps ip now c l h found fresh in
      (
        record (trim_idle deps now l) {
          clients =
              insert Bytes-discrete ip (record c { last_seen = now })
                (trim_idle deps now l).clients;
        },
        rw (kept, client_for),
        lookup-insert_self Bytes-discrete ip _ (trim_idle deps now l).clients,
      )
