-- ===== src/V2/Charged.antt =====
-- The handler of /v2/ asks the registry only for requests that the limiter has let through.
use registry_redirect.Prelude.{
  ℕ, ◌≡◌, refl, sym, ◌∙◌, true, false, some, [], ◌∷◌, Bytes, arith, Bool-cases, Option-cases, inl,
  inr, ◌⊎◌,
}
use registry_redirect.Header.{is_method}
use registry_redirect.Http.{Outgoing, Back}
use registry_redirect.RateLimiter.Deps.{Deps}
use registry_redirect.RateLimiter.State.{allow_request}
use registry_redirect.Request.{Request}
use registry_redirect.ResponseCache
use registry_redirect.ResponseCache.{Response, new_response}
use registry_redirect.ResponseCache.Expiry.{readable-get}
use registry_redirect.V2.Replay.{back_cases, looked, looked_same, reply_same, v2_miss}
use registry_redirect.V2.{v2_key, is_get, Server, Result, request_for, ask, upstream, v2}

module _ (deps : Deps) where
  pub ask_charged :
      (answer : Outgoing → Back) (later : ℕ) (r : Request) (s : Server deps)
      → ((ask deps answer later r s).asked ≡ request_for deps s r ∷ [])
        × ((ask deps answer later r s).server.rate_limiter ≡ s.rate_limiter)
  unfolding ask
  ask_charged answer later r s = elim (back_cases (answer (request_for deps s r))) [
    | inl (f, bad) ↦ rw (bad, ask) (refl, refl)
    | inr (b, good) ↦ rw (good, ask) (refl, (reply_same deps later r b s).1)
  ]

  upstream_charged :
      (answer : Outgoing → Back) (text : Bytes) (now later : ℕ) (r : Request) (s : Server deps)
      (res : Result deps)
      → upstream deps answer text now later r s ≡ some res
      → ((res.asked ≡ [])
          ⊎ ((res.asked ≡ request_for deps s r ∷ [])
              × (allow_request deps now r s.rate_limiter ≡ some (res.server.rate_limiter, true))))
  unfolding upstream
  upstream_charged answer text now later r s res h = elim (Bool-cases (is_method r.method)) [
    | inr bad ↦ inl (ground arith)
    | inl good ↦ elim (Option-cases (allow_request deps now r s.rate_limiter)) [
      | inl stuck ↦ absurd (ground arith)
      | inr ((l, false), refused) ↦ inl (ground arith)
      | inr ((l, true), allowed) ↦
          let (went, limits) = ask_charged answer later r (record s { rate_limiter = l }) in
          inr (ground arith)
    ]
  ]

  upstream_charged_looked :
      (answer : Outgoing → Back) (text : Bytes) (now later : ℕ) (r : Request) (s : Server deps)
      (res : Result deps)
      → upstream deps answer text now later r (looked deps now r s) ≡ some res
      → (res.asked ≡ [])
        ⊎ ((res.asked ≡ request_for deps s r ∷ [])
            × (allow_request deps now r s.rate_limiter ≡ some (res.server.rate_limiter, true)))
  upstream_charged_looked answer text now later r s res h =
      let (host, limits) = looked_same deps now r s in
      let c = upstream_charged answer text now later r (looked deps now r s) res h in
      ground (arith, c, host, limits)

  -- The registry is asked at most once, and only where the limiter has let the request through:
  -- the limiter of the result is the one that the charge left.
  pub v2_charged :
      (answer : Outgoing → Back) (text : Bytes) (now later : ℕ) (r : Request) (s : Server deps)
      (res : Result deps)
      → v2 deps answer text now later r s ≡ some res
      → (res.asked ≡ [])
        ⊎ ((res.asked ≡ request_for deps s r ∷ [])
            × (allow_request deps now r s.rate_limiter ≡ some (res.server.rate_limiter, true)))
  unfolding v2
  v2_charged answer text now later r s res h = elim (Bool-cases (is_get r)) [
    | inr other ↦
        upstream_charged_looked answer text now later r s res
          (sym (v2_miss deps answer text now later r s (inl other)) ∙ h)
    | inl plain ↦ elim (Option-cases (ResponseCache.get now v2_key s.v2_cache).1) [
      | inl nothing ↦
          let (got, _) = readable-get now v2_key s.v2_cache in
          upstream_charged_looked answer text now later r s res
            (sym (v2_miss deps answer text now later r s (inr (sym got ∙ nothing))) ∙ h)
      | inr (e, hit) ↦ inl (ground arith)
    ]
  ]
