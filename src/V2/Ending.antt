-- ===== src/V2/Ending.antt =====
-- The handler of /v2/ comes to an end where the limiter does.
use registry_redirect.Prelude.{
  ℕ, ◌≡◌, refl, ◌⊎◌, inl, inr, Bool, Bool-cases, Option, Option-cases, some, [], Bytes,
}
use registry_redirect.Header.{is_method}
use registry_redirect.Http.{new_writer, error, write_rate_limited, Outgoing, Back}
use registry_redirect.RateLimiter.Deps.{Deps}
use registry_redirect.RateLimiter.State.{IpRateLimiter, allow_request}
use registry_redirect.Request.{Request}
use registry_redirect.ResponseCache
use registry_redirect.V2.{v2_key, is_get, Server, Result, ask, upstream, replay, v2}
use registry_redirect.V2.Charged.{ask_charged}

module _ (deps : Deps) where
  -- The limiter is as it was, or in the state with which it answered.
  abbrev pub IsLeft : Server deps → Option (IpRateLimiter deps) → Result deps → Type 0
  IsLeft s limiter res =
      (res.server.rate_limiter ≡ s.rate_limiter) ⊎ (res.server.rate_limiter ≡ limiter)

  upstream-IsLeft :
      (answer : Outgoing → Back) (text : Bytes) (now later : ℕ) (r : Request) (s : Server deps)
      (limiter : Option (IpRateLimiter deps)) (allowed : Bool)
      → allow_request deps now r s.rate_limiter ≡ some (limiter, allowed)
      → (res : Result deps) × (upstream deps answer text now later r s ≡ some res)
        × IsLeft s limiter res
  unfolding upstream
  upstream-IsLeft answer text now later r s limiter allowed given =
      elim (Bool-cases (is_method r.method)) [
        | inr bad ↦ (
          record { server = s; writer = error text 500 new_writer; asked = [] },
          rw (bad, upstream) refl,
          inl refl,
        )
        | inl good ↦ elim (Bool-cases allowed) [
          | inr refused ↦ (
            record {
              server = record s { rate_limiter = limiter };
              writer = write_rate_limited new_writer;
              asked = [];
            },
            rw (good, upstream, given, refused) refl,
            inr refl,
          )
          | inl through ↦ (
            ask deps answer later r (record s { rate_limiter = limiter }),
            rw (good, upstream, given, through) refl,
            inr (ask_charged deps answer later r (record s { rate_limiter = limiter })).1,
          )
        ]
      ]

  pub v2-IsLeft :
      (answer : Outgoing → Back) (text : Bytes) (now later : ℕ) (r : Request) (s : Server deps)
      (limiter : Option (IpRateLimiter deps)) (allowed : Bool)
      → allow_request deps now r s.rate_limiter ≡ some (limiter, allowed)
      → (res : Result deps) × (v2 deps answer text now later r s ≡ some res) × IsLeft s limiter res
  unfolding v2
  v2-IsLeft answer text now later r s limiter allowed given = elim (Bool-cases (is_get r)) [
    | inr other ↦ rw (other, v2) (upstream-IsLeft answer text now later r s limiter allowed given)
    | inl get ↦
        let looked : Server deps = record s {
          v2_cache = (ResponseCache.get now v2_key s.v2_cache).0;
        } in
        elim (Option-cases (ResponseCache.get now v2_key s.v2_cache).1) [
          | inr (e, hit) ↦ (replay deps r e looked, rw (get, v2, hit) refl, inl refl)
          | inl miss ↦
              rw (get, v2, miss)
                (upstream-IsLeft answer text now later r looked limiter allowed given)
        ]
  ]
