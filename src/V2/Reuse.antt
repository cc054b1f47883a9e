-- ===== src/V2/Reuse.antt =====
-- An answer of the registry is used again for other clients of /v2/.
use registry_redirect.Prelude.{
  ℕ, ◌+◌, ◌≤◌, ◌<◌, ◌≡◌, refl, ap, ◌∙◌, true, Option, none, some, [], Bytes, arith, length,
}
use registry_redirect.Http.{Outgoing, Reply, Back}
use registry_redirect.Http.Bodies.{read_body_with_limit_whole}
use registry_redirect.RateLimiter.Deps.{Deps}
use registry_redirect.RateLimiter.State.{IpRateLimiter}
use registry_redirect.Request.{Request}
use registry_redirect.ResponseCache
use registry_redirect.ResponseCache.{Response, new_response}
use registry_redirect.ResponseCache.Bounds.{IsBounded}
use registry_redirect.ResponseCache.Expiry.{readable, get-Cache, readable_stored}
use registry_redirect.V2.{
  v2_key, max_body_bytes, is_get, is_kept, reply_header, send, Server, Result, finish, reply, v2,
}
use registry_redirect.V2.Replay.{IsAnswered, looked, looked_same, reply_same, v2_answered, v2_hit}

is_get_of_is_kept : (r : Request) (b : Reply) → is_kept r b ≡ true → is_get r ≡ true
is_get_of_is_kept r b h = ground arith

module _ (deps : Deps) where
  reply_stored :
      (later : ℕ) (r : Request) (b : Reply) (s : Server deps)
      → is_kept r b ≡ true
      → b.body.failure ≡ none
      → length b.body.content ≤ max_body_bytes
      → (reply deps later r b s).0 ≡ record s {
        v2_cache =
            (ResponseCache.set later v2_key
              (new_response b.status b.header b.body.content)
              s.v2_cache).0;
      }
  unfolding reply finish
  reply_stored later r b s kept fine small =
      rw (kept, reply, read_body_with_limit_whole b.body max_body_bytes small fine) refl

  -- The look of a request that is a GET.
  looked_get :
      (now : ℕ) (r : Request) (s : Server deps) (c' : ResponseCache.Cache)
      → is_get r ≡ true
      → (ResponseCache.get now v2_key s.v2_cache).0 ≡ some c'
      → looked deps now r s ≡ record s { v2_cache = some c' }
  looked_get now r s c' h e = rw (h, e) refl

  -- Where the registry answers a GET with the status 200 or 401 and a body of at most 64 KiB that
  -- does not fail, and the cache is within its cap and takes the answer, it also serves every GET
  -- that comes within the time to live: with the same status and body, the header rewritten for
  -- the host of that request, no request to the registry and no charge at the limiter.
  pub v2_reuses :
      (answer : Outgoing → Back) (text : Bytes) (now later : ℕ) (r : Request) (s : Server deps)
      (b : Reply) (limiter : Option (IpRateLimiter deps)) (c : ResponseCache.Cache)
      → IsAnswered deps answer now r s b limiter
      → is_kept r b ≡ true
      → length b.body.content ≤ max_body_bytes
      → s.v2_cache ≡ some c
      → IsBounded c
      → (ResponseCache.set later v2_key
          (new_response b.status b.header b.body.content)
          (ResponseCache.get now v2_key (some c)).0).1
        ≡ true
      → (res : Result deps) × (v2 deps answer text now later r s ≡ some res)
        × ((answer' : Outgoing → Back) (t t' : ℕ) (q : Request)
            → is_get q ≡ true
            → later ≤ t
            → t < later + c.ttl
            → (res' : Result deps) × (v2 deps answer' text t t' q res.server ≡ some res')
              × (res'.writer ≡ send b.status (reply_header s.host q b.header) b.body.content)
              × (res'.asked ≡ [])
              × (res'.server.rate_limiter ≡ limiter))
  v2_reuses answer text now later r s b limiter c h kept small cached bounded taken =
      let (c', got, ttl, bounded') = get-Cache now v2_key c bounded in
      let value = new_response b.status b.header b.body.content in
      let l = record (looked deps now r s) { rate_limiter = limiter } in
      let plain : is_get r ≡ true = is_get_of_is_kept r b kept in
      let at_s = ap (λ x. (ResponseCache.get now v2_key x).0) cached ∙ got in
      let look = ap (λ (x : Server deps). x.v2_cache) (looked_get now r s c' plain at_s) in
      let stored =
        ap (λ (x : Server deps). x.v2_cache) (reply_stored later r b l kept h.whole_body small)
        ∙ ap (λ x. (ResponseCache.set later v2_key value x).0) look in
      let (host, limits) = reply_same deps later r b l in
      (
        _,
        v2_answered deps answer text now later r s b limiter h,
        λ answer' t t' q get from till.
            let hit : readable t v2_key (reply deps later r b l).0.v2_cache ≡ some value =
              rw stored (
                readable_stored later t v2_key value c' bounded' (rw got at taken) from
                  (omega (arith, ttl, till))) in
            (
              _,
              v2_hit deps answer' text t t' q (reply deps later r b l).0 value get hit,
              unfold new_response in
                  ap (λ x. send b.status (reply_header x q b.header) b.body.content)
                    (host ∙ (looked_same deps now r s).0),
              refl,
              limits,
            ),
      )
