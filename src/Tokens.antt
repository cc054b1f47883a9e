-- ===== src/Tokens.antt =====
-- pkg/redirect/anonymous_token.go: anonymous tokens, the handler of /token and the token of a request
-- that comes without one. A call has a course: when it looks into the cache and the limiter, when the
-- answer of the registry is stored, how long its client stays, and whether it joins a fetch that
-- another call has begun, and with what result. How such fetches interleave is in Flights.
pub mod Queries
pub mod Flight
pub mod Fetching
pub mod Cached
pub mod Keeping
pub mod Charging
pub mod Ending
pub mod Sharing
mod Tests
use registry_redirect.Prelude.{
  ℕ, ◌+◌, ◌-◌, ◌*◌, Bool, true, false, not, ◌&&◌, ◌||◌, Option, none, some, List, [], ◌∷◌, ◌++◌,
  Bytes, codes, ◌==◌, ◌⊎◌, inl, inr, ltb, leb, if◌then◌else◌, length, take, drop,
}
use registry_redirect.BlobCache.{Store}
use registry_redirect.Header
use registry_redirect.Header.{Header}
use registry_redirect.Http.{
  Writer, new_writer, write_header, write, error, write_rate_limited, copy_headers, Body, Read,
  read_failed, read_some, read_body_with_limit, Failure, backend_error_status, Outgoing, Reply,
  Back, failed, answered,
}
use registry_redirect.Paths.{bytes_eq}
use registry_redirect.Query
use registry_redirect.Query.{Values, encode}
use registry_redirect.RateLimiter.Deps.{Deps}
use registry_redirect.RateLimiter.State.{allow_request}
use registry_redirect.Redirect.{World, Redirect, Result, new_backend_request, plain}
use registry_redirect.Request.{Request}
use registry_redirect.ResponseCache
use registry_redirect.ResponseCache.{Response, new_response}
use registry_redirect.Strings.{split, join, replace_first}
unfoldable pub use registry_redirect.Tokens.Queries.{
  token_url, with_scope, token_values, repo_parts, pull_values,
}
pub use registry_redirect.Tokens.Queries.{is_nil, slashed, service_of}
unfoldable pub use registry_redirect.Tokens.Flight.{
  is_kept, settle, land, send, flight, fly, fetch_anonymous_token,
}
pub use registry_redirect.Tokens.Flight.{
  max_body_bytes, fetch_header, is_right, waited, is_gone, Fetched, Patience, Course, Flown,
  fetched, broken, gone, leaves, stays,
}

-- The reply from an answer, cached or fresh.
unfoldable pub relay : Bytes → Response → Writer
relay url e =
    let header = Header.set (copy_headers [] e.header) (codes "X-Redirected") url in
    write e.body (write_header e.status (record new_writer { header = header }))

unfoldable pub relay_fetched : Bytes → Fetched → Writer
relay_fetched url (fetched e) = relay url e
relay_fetched url (broken f) = error f.text (backend_error_status f) new_writer

-- Only anonymous GET responses may be shared between clients.
abbrev pub is_anonymous : Request → Bool
is_anonymous r =
    bytes_eq r.method (codes "GET") && is_nil (Header.get r.header (codes "Authorization"))

-- What `getToken` returns: a token, a status of the registry, or an error; it panics on a path that no
-- route leads to.
pub data Token : Type 0 where
  token_is : Bytes → Token
  status_is : ℕ → Token
  fails_with : Failure → Token
  panics : Token

unfoldable pub token_of : World → Fetched → Token
token_of world (broken f) = fails_with f
token_of world (fetched e) =
    if e.status == 200
    then (elim (world.decode_token e.body) [ inl f ↦ fails_with f | inr t ↦ token_is t ])
    else status_is e.status

-- The reply to a request that went to the registry as it came.
unfoldable pub relay_back : Bytes → Back → Writer
relay_back url (failed f) =
    error f.text (backend_error_status f)
      (record new_writer { header = Header.set [] (codes "X-Redirected") url })
relay_back url (answered b) =
    let header = copy_headers (Header.set [] (codes "X-Redirected") url) b.header in
    write b.body.content (write_header b.status (record new_writer { header = header }))

module _ (deps : Deps) (store : Store) (world : World) where
  -- `cachedToken`, and the fetch where it has nothing.
  unfoldable pub look_or_fetch : Course → Bytes → Option ResponseCache.Cache → Flown world
  look_or_fetch course url c = elim (ResponseCache.get course.now url c).1 [
    | some e ↦ record {
      cache = (ResponseCache.get course.now url c).0;
      result = fetched e;
      asked = [];
    }
    | none ↦ fetch_anonymous_token world course url (ResponseCache.get course.now url c).0
  ]

  unfoldable pub get_token :
      Course → Request → Redirect deps store → Redirect deps store × Token × List Outgoing
  get_token course r s = elim (repo_parts s.prefix (split b'/' r.path)) [
    | none ↦ (s, panics, [])
    | some parts ↦
        let flown =
          look_or_fetch course (token_url s.host (pull_values s.host s.repo parts)) s.token_cache in
        (record s { token_cache = flown.cache }, token_of world flown.result, flown.asked)
  ]

  abbrev pub refused : Redirect deps store → Result deps store
  refused s = record { server = s; writer = write_rate_limited new_writer; asked = [] }

  -- `serveAnonymousToken` past a miss, under the limiter; `none` where the limiter does not answer.
  unfoldable pub serve_fetched :
      Course → Request → Bytes → Redirect deps store → Option (Result deps store)
  serve_fetched course r url s = elim (allow_request deps course.now r s.rate_limiter) [
    | none ↦ none
    | some (limiter, false) ↦ some (refused (record s { rate_limiter = limiter }))
    | some (limiter, true) ↦
        let flown = fetch_anonymous_token world course url s.token_cache in
        some (record {
          server = record s { rate_limiter = limiter; token_cache = flown.cache };
          writer = relay_fetched url flown.result;
          asked = flown.asked;
        })
  ]

  unfoldable pub serve_anonymous_token :
      Course → Request → Bytes → Redirect deps store → Option (Result deps store)
  serve_anonymous_token course r url s = elim (ResponseCache.get course.now url s.token_cache).1 [
    | some e ↦ some (record {
      server = record s { token_cache = (ResponseCache.get course.now url s.token_cache).0 };
      writer = relay url e;
      asked = [];
    })
    | none ↦
        serve_fetched course r url
          (record s { token_cache = (ResponseCache.get course.now url s.token_cache).0 })
  ]

  unfoldable pub relay_request :
      Course → Request → Redirect deps store → Bytes ⊎ Outgoing → Option (Result deps store)
  relay_request course r s (inl text) =
      some (record { server = s; writer = error text 500 new_writer; asked = [] })
  relay_request course r s (inr out) = elim (allow_request deps course.now r s.rate_limiter) [
    | none ↦ none
    | some (limiter, false) ↦ some (refused (record s { rate_limiter = limiter }))
    | some (limiter, true) ↦ some (record {
      server = record s { rate_limiter = limiter };
      writer = relay_back (world.url_text out.url) (world.client out);
      asked = out ∷ [];
    })
  ]

  unfoldable pub token : Course → Request → Redirect deps store → Option (Result deps store)
  token course r s =
      let url = token_url s.host (token_values s.prefix s.repo r.query) in
      if is_anonymous r
      then serve_anonymous_token course r url s
      else relay_request course r s (new_backend_request world r.method url r.header)
