-- ===== src/RateLimiter/State.antt =====
-- `ipRateLimiter` of pkg/redirect/rate_limiter.go and its methods. The limiter may be nil. A request
-- is one step: the mutex covers `client`, and the `AllowN` of the same request follows it. A time is
-- a number of nanoseconds, and the zero time, which `lastTrim` starts with, is `none`.
use registry_redirect.Prelude.{
  ℕ, ◌+◌, ◌*◌, ◌^◌, Bool, true, false, Option, none, some, List, [], Bytes, Bytes-discrete, leb,
  if◌then◌else◌, length, ℤ, pos_part,
}
use registry_redirect.ClientIp.{client_ip}
use registry_redirect.GoMap.{lookup, insert, sweep}
use registry_redirect.Paths.{is_blob_request}
use registry_redirect.RateLimiter.Clients.{Client, is_idle, evict}
use registry_redirect.RateLimiter.Deps.{Deps}
use registry_redirect.RateLimiter.Limits.{
  RateLimit, Compiled, Override, compile_overrides, first_match, or_default,
}
use registry_redirect.Request.{Request}
use registry_redirect.Tracker.{Tracker, record_ip}

abbrev pub minute : ℕ
minute = 60 * 10 ^ 9

module _ (deps : Deps) where
  open deps use {Limit, Limiter, per_minute, new_limiter, allow_n, parse_addr, unmap}

  -- `ipRateLimiter`. A `MaxIPs` below 1 is 0 here: the code compares it with a length only.
  pub record IpRateLimiter : Type 0 where
    pub rate_limit : RateLimit deps
    pub idle_ttl : ℕ
    pub max_ips : ℕ
    pub overrides : List (Compiled deps)
    pub limited_ips : Option Tracker
    pub clients : List (Bytes × Client Limiter)
    pub last_trim : Option ℕ

  -- `RateLimitOptions` as `newIPRateLimiter` reads it.
  pub record LimiterOptions : Type 0 where
    pub requests_per_minute : ℤ
    pub burst : ℤ
    pub idle_ttl : ℕ
    pub max_ips : ℤ
    pub ip_overrides : List (Override deps)
    pub limited_ips : Option Tracker

  unfoldable pub new_ip_rate_limiter : LimiterOptions → IpRateLimiter
  new_ip_rate_limiter o = record {
    rate_limit = record { limit = per_minute o.requests_per_minute; burst = o.burst };
    idle_ttl = o.idle_ttl;
    max_ips = pos_part o.max_ips;
    overrides = compile_overrides deps o.ip_overrides;
    limited_ips = o.limited_ips;
    clients = [];
    last_trim = none;
  }

  unfoldable pub rate_limit_for_ip : IpRateLimiter → Bytes → RateLimit deps
  rate_limit_for_ip l ip = elim l.overrides [
    | [] ↦ l.rate_limit
    | _ ↦ elim (parse_addr ip) [
      | none ↦ l.rate_limit
      | some addr ↦ or_default deps (first_match deps (unmap addr) l.overrides) l.rate_limit
    ]
  ]

  unfoldable pub remove_idle : ℕ → IpRateLimiter → IpRateLimiter
  remove_idle now l = record l { clients = sweep (λ _ c. is_idle l.idle_ttl now c) l.clients }

  -- The first block of `client`: once a minute the idle clients go.
  unfoldable pub trim_idle : ℕ → IpRateLimiter → IpRateLimiter
  trim_idle now l = elim l.last_trim [
    | none ↦ record (remove_idle now l) { last_trim = some now }
    | some t ↦
        if leb (t + minute) now then record (remove_idle now l) { last_trim = some now } else l
  ]

  -- In a full map the idle clients go first when a new one comes.
  unfoldable pub sweep_full : ℕ → IpRateLimiter → List (Bytes × Client Limiter)
  sweep_full now l =
      if leb l.max_ips (length l.clients) then (remove_idle now l).clients else l.clients

  -- The clients that are left for a new one. The fuel is one round for each client.
  unfoldable pub make_room : ℕ → IpRateLimiter → Option (List (Bytes × Client Limiter))
  make_room now l = evict l.max_ips (length (sweep_full now l)) (sweep_full now l)

  -- `client` past its first block: the state, and the limiter of the address.
  unfoldable pub client_for : Bytes → ℕ → IpRateLimiter → Option (IpRateLimiter × Limiter)
  client_for ip now l = elim (lookup Bytes-discrete ip l.clients) [
    | some c ↦ some (
      record l { clients = insert Bytes-discrete ip (record c { last_seen = now }) l.clients },
      c.limiter,
    )
    | none ↦ elim (make_room now l) [
      | none ↦ none
      | some kept ↦
          let r = rate_limit_for_ip l ip in
          let limiter = new_limiter r.limit r.burst in
          some (
            record l {
              clients =
                  insert Bytes-discrete ip (record { limiter = limiter; last_seen = now }) kept;
            },
            limiter,
          )
    ]
  ]

  unfoldable pub client : Bytes → ℕ → IpRateLimiter → Option (IpRateLimiter × Limiter)
  client ip now l = client_for ip now (trim_idle now l)

  -- `AllowN(now, 1)` on the limiter of the address, which the map still holds.
  unfoldable pub charge : Bytes → ℕ → IpRateLimiter → Limiter → IpRateLimiter × Bool
  charge ip now l limiter =
      let (limiter', allowed) = allow_n now 1 limiter in
      (
        record l {
          clients =
              insert Bytes-discrete ip (record { limiter = limiter'; last_seen = now }) l.clients;
        },
        allowed,
      )

  unfoldable pub allow : Bytes → ℕ → IpRateLimiter → Option (IpRateLimiter × Bool)
  allow ip now l = elim (client ip now l) [ none ↦ none | some (l', c) ↦ some (charge ip now l' c) ]

  -- What `allowRequest` does with the answer of `allow`.
  abbrev pub recorded : Bytes → IpRateLimiter × Bool → Option IpRateLimiter × Bool
  recorded ip (l, true) = (some l, true)
  recorded ip (l, false) = (some (record l { limited_ips = record_ip ip l.limited_ips }), false)

  unfoldable pub allow_request :
      ℕ → Request → Option IpRateLimiter → Option (Option IpRateLimiter × Bool)
  allow_request now r none = some (none, true)
  allow_request now r (some l) =
      if is_blob_request r.path then some (some l, true) else elim (allow (client_ip r) now l) [
        | none ↦ none
        | some answer ↦ some (recorded (client_ip r) answer)
      ]
