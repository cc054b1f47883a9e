-- ===== src/V2/Replay.antt =====
-- What a client of /v2/ gets, whether the registry or the cache answers.
use registry_redirect.Prelude.{
  ℕ, ◌≡◌, refl, ap, ◌∙◌, true, false, Option, none, some, [], ◌∷◌, ◌++◌, Bytes, arith, Bool-cases,
  inl, inr, ◌⊎◌, if◌then◌else◌,
}
use registry_redirect.Header.{Header, is_method}
use registry_redirect.Http.{
  write_header, write, Read, read_failed, read_some, read_body_with_limit, Outgoing, Reply, Back,
  Failure, failed, answered,
}
use registry_redirect.Http.Bodies.{IsRead, whole, broken, partial, read_body_with_limit-IsRead}
use registry_redirect.RateLimiter.Deps.{Deps}
use registry_redirect.RateLimiter.State.{IpRateLimiter, allow_request}
use registry_redirect.Request.{Request}
use registry_redirect.ResponseCache
use registry_redirect.ResponseCache.{Response, new_response}
use registry_redirect.ResponseCache.Expiry.{readable, readable-get}
use registry_redirect.V2.{
  v2_key, max_body_bytes, is_get, is_kept, reply_header, send, Server, finish, reply, request_for,
  ask, upstream, replay, v2,
}

-- A reply in one go sends the status and the header, and then the whole body.
send_lem :
    (status : ℕ) (header : Header) (body : Bytes)
    → send status header body
      ≡ record { header = header; sent = some (status, header); body = body }
unfolding write write_header
send_lem status header body = refl

write-send :
    (status : ℕ) (header : Header) (out rest : Bytes)
    → write rest (send status header out) ≡ send status header (out ++ rest)
unfolding write write_header
write-send status header out rest = refl

pub back_cases : (b : Back) → ((f : Failure) × (b ≡ failed f)) ⊎ ((a : Reply) × (b ≡ answered a))
back_cases (failed f) = inl (f, refl)
back_cases (answered a) = inr (a, refl)

module _ (deps : Deps) where
  finish-writer :
      (later : ℕ) (header : Header) (b : Reply) (s : Server deps) (r : Read)
      → b.body.failure ≡ none
      → IsRead b.body max_body_bytes r
      → (finish deps later header b r s).1 ≡ send b.status header b.body.content
  unfolding finish
  finish-writer later header b s _ h (whole small fine) = refl
  finish-writer later header b s _ h (broken f small bad) = absurd (ground arith)
  finish-writer later header b s _ h (partial out rest long all) =
      write-send b.status header out rest ∙ ap (send b.status header) all

  -- An answer whose body does not fail reaches the client whole, of whatever length and whether or not
  -- it is kept.
  reply-writer :
      (later : ℕ) (r : Request) (b : Reply) (s : Server deps)
      → b.body.failure ≡ none
      → (reply deps later r b s).1 ≡ send b.status (reply_header s.host r b.header) b.body.content
  unfolding reply
  reply-writer later r b s h = elim (Bool-cases (is_kept r b)) [
    | inl kept ↦
        rw (kept, reply)
          (finish-writer later _ b s _ h (read_body_with_limit-IsRead b.body max_body_bytes))
    | inr other ↦ rw (other, reply) refl
  ]

  -- The cache has nothing for the request.
  abbrev pub IsMiss : ℕ → Request → Server deps → Type 0
  IsMiss now r s = (is_get r ≡ false) ⊎ (readable now v2_key s.v2_cache ≡ none)

  -- The server after the look into the cache.
  abbrev pub looked : ℕ → Request → Server deps → Server deps
  looked now r s =
      if is_get r then record s { v2_cache = (ResponseCache.get now v2_key s.v2_cache).0 } else s

  pub v2_miss :
      (answer : Outgoing → Back) (text : Bytes) (now later : ℕ) (r : Request) (s : Server deps)
      → IsMiss now r s
      → v2 deps answer text now later r s ≡ upstream deps answer text now later r (looked now r s)
  unfolding v2
  v2_miss answer text now later r s (inl other) = rw (other, v2) refl
  v2_miss answer text now later r s (inr nothing) =
      let (got, _) = readable-get now v2_key s.v2_cache in
      elim (Bool-cases (is_get r)) [
        | inl h ↦ rw (h, v2, got, nothing) refl
        | inr h ↦ rw (h, v2) refl
      ]

  pub looked_same :
      (now : ℕ) (r : Request) (s : Server deps)
      → ((looked now r s).host ≡ s.host) × ((looked now r s).rate_limiter ≡ s.rate_limiter)
  looked_same now r s = ground arith

  -- The limiter lets the request out, and the registry answers it.
  pub record IsAnswered (answer : Outgoing → Back) (now : ℕ) (r : Request) (s : Server deps)
      (b : Reply) (limiter : Option (IpRateLimiter deps)) : Type 0 where
    pub miss : IsMiss now r s
    pub method : is_method r.method ≡ true
    pub allowed : allow_request deps now r s.rate_limiter ≡ some (limiter, true)
    pub got : answer (request_for deps s r) ≡ answered b
    pub whole_body : b.body.failure ≡ none

  pub v2_answered :
      (answer : Outgoing → Back) (text : Bytes) (now later : ℕ) (r : Request) (s : Server deps)
      (b : Reply) (limiter : Option (IpRateLimiter deps))
      → IsAnswered answer now r s b limiter
      → v2 deps answer text now later r s
        ≡ some (record {
          server = (reply deps later r b (record (looked now r s) { rate_limiter = limiter })).0;
          writer = send b.status (reply_header s.host r b.header) b.body.content;
          asked = request_for deps s r ∷ [];
        })
  unfolding upstream ask
  v2_answered answer text now later r s b limiter h =
      let (host, limits) = looked_same now r s in
      let l = record (looked now r s) { rate_limiter = limiter } in
      let all = reply-writer later r b l h.whole_body in
      v2_miss answer text now later r s h.miss
      ∙ rw (h.method, upstream, limits, h.allowed, ask, host, h.got) (rw (all, host) refl)

  finish_same :
      (later : ℕ) (header : Header) (b : Reply) (got : Read) (s : Server deps)
      → ((finish deps later header b got s).0.host ≡ s.host)
        × ((finish deps later header b got s).0.rate_limiter ≡ s.rate_limiter)
  unfolding finish
  finish_same later header b (read_failed f) s = (refl, refl)
  finish_same later header b (read_some out true rest) s = (refl, refl)
  finish_same later header b (read_some out false rest) s = (refl, refl)

  pub reply_same :
      (later : ℕ) (r : Request) (b : Reply) (s : Server deps)
      → ((reply deps later r b s).0.host ≡ s.host)
        × ((reply deps later r b s).0.rate_limiter ≡ s.rate_limiter)
  unfolding reply
  reply_same later r b s = elim (Bool-cases (is_kept r b)) [
    | inl kept ↦
        rw (kept, reply) (finish_same later _ b (read_body_with_limit b.body max_body_bytes) s)
    | inr other ↦ rw (other, reply) (refl, refl)
  ]

  -- A request that the cache has nothing for, that the limiter allows and that the registry
  -- answers with a body that does not fail goes out once. The client gets the status and the
  -- whole body, of whatever length, method and status, and the header with the realm rewritten;
  -- the server holds the limiter that the charge left.
  pub v2_passes :
      (answer : Outgoing → Back) (text : Bytes) (now later : ℕ) (r : Request) (s : Server deps)
      (b : Reply) (limiter : Option (IpRateLimiter deps))
      → IsAnswered answer now r s b limiter
      → (s' : Server deps) × (v2 deps answer text now later r s
          ≡ some (record {
            server = s';
            writer = record {
              header = reply_header s.host r b.header;
              sent = some (b.status, reply_header s.host r b.header);
              body = b.body.content;
            };
            asked = request_for deps s r ∷ [];
          }))
        × (s'.rate_limiter ≡ limiter)
        × (s'.host ≡ s.host)
  v2_passes answer text now later r s b limiter h =
      let (host, limits) =
        reply_same later r b (record (looked now r s) { rate_limiter = limiter }) in
      (
        (reply deps later r b (record (looked now r s) { rate_limiter = limiter })).0,
        v2_answered answer text now later r s b limiter h ∙ unfold write write_header in refl,
        limits,
        host ∙ (looked_same now r s).0,
      )

  pub v2_hit :
      (answer : Outgoing → Back) (text : Bytes) (now later : ℕ) (r : Request) (s : Server deps)
      (e : Response)
      → is_get r ≡ true
      → readable now v2_key s.v2_cache ≡ some e
      → v2 deps answer text now later r s
        ≡ some
            (replay deps r e (record s { v2_cache = (ResponseCache.get now v2_key s.v2_cache).0 }))
  unfolding v2
  v2_hit answer text now later r s e h hit =
      let (got, _) = readable-get now v2_key s.v2_cache in rw (h, v2, got, hit) refl
