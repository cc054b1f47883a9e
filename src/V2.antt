-- ===== src/V2.antt =====
-- pkg/redirect/v2.go: the handler of /v2/, which answers with the registry's challenge and rewrites
-- it so that clients fetch their tokens here. The registry is the argument `answer`. A request is
-- handled at a time `now`, at which it looks into the cache and asks the limiter, and the answer of
-- the registry is stored at a time `later`. The result names the requests that went out. It is
-- `none` only where the limiter does not answer.
pub mod Replay
pub mod Charged
pub mod Ending
pub mod Reuse
mod Tests
use registry_redirect.Prelude.{
  ℕ, ◌+◌, ◌*◌, Bool, true, false, ◌&&◌, ◌||◌, Option, none, some, List, [], ◌∷◌, ◌++◌, Bytes, codes,
  ◌==◌, if◌then◌else◌,
}
use registry_redirect.Header
use registry_redirect.Header.{Header, is_method}
use registry_redirect.Http.{
  Writer, new_writer, write_header, write, error, write_rate_limited, Body, Read, read_failed,
  read_some, read_body_with_limit, Failure, backend_error_status, Outgoing, Reply, Back, failed,
  answered,
}
use registry_redirect.Paths.{bytes_eq}
use registry_redirect.RateLimiter.Deps.{Deps}
use registry_redirect.RateLimiter.State.{IpRateLimiter, allow_request}
use registry_redirect.Request.{Request}
use registry_redirect.ResponseCache
use registry_redirect.ResponseCache.{Response, new_response}
use registry_redirect.Strings.{replace_first}

abbrev pub v2_key : Bytes
v2_key = codes "/v2/"

abbrev pub max_body_bytes : ℕ
max_body_bytes = 64 * 1024

-- The value of a `Www-Authenticate` header with the realm of the registry replaced by the host of
-- the request.
unfoldable pub rewrite_realm : Bytes → Bytes → Bytes → Bytes
rewrite_realm registry host v =
    let ours = codes "realm=\"https://" ++ host ++ codes "/" in
    if bytes_eq registry (codes "gcr.io")
    then replace_first v (codes "realm=\"https://gcr.io/v2/") ours
    else replace_first v (codes "realm=\"https://ghcr.io/") ours

-- The loops of `writeV2Headers`.
unfoldable pub write_v2_values : Bytes → Bytes → Bytes → List Bytes → Header → Header
write_v2_values registry host k [] dst = dst
write_v2_values registry host k (v ∷ vs) dst =
    let value =
      if bytes_eq k (codes "Www-Authenticate") then rewrite_realm registry host v else v in
    write_v2_values registry host k vs (Header.add dst k value)

unfoldable pub write_v2_headers : Bytes → Header → Header → Bytes → Header
write_v2_headers registry dst [] host = dst
write_v2_headers registry dst ((k, vs) ∷ src) host =
    write_v2_headers registry (write_v2_values registry host k vs dst) src host

abbrev pub is_get : Request → Bool
is_get r = bytes_eq r.method (codes "GET")

unfoldable pub upstream_url : Bytes → Bytes
upstream_url registry =
    if bytes_eq registry (codes "gcr.io")
    then codes "https://gcr.io/v2/"
    else codes "https://ghcr.io/v2/"

-- The header of the reply to a request, from that of the registry's answer.
abbrev pub reply_header : Bytes → Request → Header → Header
reply_header registry r src =
    write_v2_headers registry (Header.set [] (codes "X-Redirected") r.url) src r.host

-- A status, a header and a body in one go.
abbrev pub send : ℕ → Header → Bytes → Writer
send status header body = write body (write_header status (record new_writer { header = header }))

-- Whether an answer is read into memory and offered to the cache.
abbrev pub is_kept : Request → Reply → Bool
is_kept r b = is_get r && (b.status == 200 || b.status == 401)

module _ (deps : Deps) where
  -- The fields of `redirect` that the handler uses.
  pub record Server : Type 0 where
    pub host : Bytes
    pub rate_limiter : Option (IpRateLimiter deps)
    pub v2_cache : Option ResponseCache.Cache

  pub record Result : Type 0 where
    pub server : Server
    pub writer : Writer
    pub asked : List Outgoing

  -- The handler from the answer of the registry on, with the header written to `header`.
  unfoldable pub finish : ℕ → Header → Reply → Read → Server → Server × Writer
  finish later header b (read_failed f) s =
      (s, error f.text 500 (record new_writer { header = header }))
  finish later header b (read_some out true rest) s =
      (s, write rest.content (send b.status header out))
  finish later header b (read_some out false rest) s = (
    record s {
      v2_cache = (ResponseCache.set later v2_key (new_response b.status b.header out) s.v2_cache).0;
    },
    send b.status header out,
  )

  unfoldable pub reply : ℕ → Request → Reply → Server → Server × Writer
  reply later r b s =
      let header = reply_header s.host r b.header in
      if is_kept r b
      then finish later header b (read_body_with_limit b.body max_body_bytes) s
      else (s, send b.status header b.body.content)

  -- The request that goes out: no header of the client is in it.
  abbrev pub request_for : Server → Request → Outgoing
  request_for s r = record { method = r.method; url = upstream_url s.host; header = [] }

  unfoldable pub ask : (Outgoing → Back) → ℕ → Request → Server → Result
  ask answer later r s = elim (answer (request_for s r)) [
    | failed f ↦ record {
      server = s;
      writer =
          error f.text (backend_error_status f)
            (record new_writer { header = Header.set [] (codes "X-Redirected") r.url });
      asked = request_for s r ∷ [];
    }
    | answered b ↦ record {
      server = (reply later r b s).0;
      writer = (reply later r b s).1;
      asked = request_for s r ∷ [];
    }
  ]

  -- The handler past the cache. `error_text` is that of a request with a bad method.
  unfoldable pub upstream : (Outgoing → Back) → Bytes → ℕ → ℕ → Request → Server → Option Result
  upstream answer error_text now later r s =
      if is_method r.method
      then (elim (allow_request deps now r s.rate_limiter) [
        | none ↦ none
        | some (limiter, false) ↦ some (record {
          server = record s { rate_limiter = limiter };
          writer = write_rate_limited new_writer;
          asked = [];
        })
        | some (limiter, true) ↦ some (ask answer later r (record s { rate_limiter = limiter }))
      ])
      else some (record { server = s; writer = error error_text 500 new_writer; asked = [] })

  -- The reply from the cache.
  abbrev pub replay : Request → Response → Server → Result
  replay r e s = record {
    server = s;
    writer = send e.status (reply_header s.host r e.header) e.body;
    asked = [];
  }

  unfoldable pub v2 : (Outgoing → Back) → Bytes → ℕ → ℕ → Request → Server → Option Result
  v2 answer error_text now later r s =
      if is_get r
      then (elim (ResponseCache.get now v2_key s.v2_cache).1 [
        | some e ↦
            some (replay r e (record s { v2_cache = (ResponseCache.get now v2_key s.v2_cache).0 }))
        | none ↦
            upstream answer error_text now later r
              (record s { v2_cache = (ResponseCache.get now v2_key s.v2_cache).0 })
      ])
      else upstream answer error_text now later r s
