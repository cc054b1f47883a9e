-- ===== src/Tokens/Fetching.antt =====
-- A token that one call has fetched serves the others: without a request, and without a charge.
use registry_redirect.Prelude.{
  ℕ, ◌+◌, ◌≤◌, ◌<◌, ◌≡◌, refl, ap, ◌∙◌, true, Option, none, some, [], Bytes, codes, arith, length,
  inr,
}
use registry_redirect.BlobCache.{Store}
use registry_redirect.Header.{is_method}
use registry_redirect.Http.{Reply, answered}
use registry_redirect.Http.Bodies.{read_body_with_limit_whole}
use registry_redirect.RateLimiter.Deps.{Deps}
use registry_redirect.Redirect.{World, Redirect, Result, new_backend_request}
use registry_redirect.Request.{Request}
use registry_redirect.ResponseCache
use registry_redirect.ResponseCache.{Response, new_response}
use registry_redirect.ResponseCache.Bounds.{IsBounded}
use registry_redirect.ResponseCache.Expiry.{readable, readable-get, get-Cache, readable_stored}
use registry_redirect.Tokens.{
  max_body_bytes, fetched, Course, fetch_header, is_kept, settle, land, send, flight, fly, is_gone,
  fetch_anonymous_token, look_or_fetch, serve_anonymous_token, relay,
}
use registry_redirect.Tokens.Charging.{fetch_request}
use registry_redirect.Tokens.Keeping.{waited-cache}

-- A call that starts a fetch of its own, which the registry answers with a token in a body of at most
-- 64 KiB that does not fail. Its client may leave before the answer comes.
pub record IsAnswered (world : World) (course : Course) (url : Bytes)
    (c : Option ResponseCache.Cache) (b : Reply) : Type 0 where
  pub own : course.joined ≡ none
  pub begun : is_gone world course.patience ≡ none
  pub miss : (ResponseCache.get course.now url c).1 ≡ none
  pub valid : world.url_error url ≡ none
  pub got : world.client (fetch_request url) ≡ answered b
  pub small : length b.body.content ≤ max_body_bytes
  pub whole_body : b.body.failure ≡ none
  pub kept : is_kept world (new_response b.status b.header b.body.content) ≡ true

module _ (world : World) where
  made_lem :
      (url : Bytes)
      → world.url_error url ≡ none
      → new_backend_request world (codes "GET") url fetch_header ≡ inr (fetch_request url)
  unfolding new_backend_request is_method
  made_lem url h = rw (h, new_backend_request) refl

  settle_kept :
      (later : ℕ) (url : Bytes) (b : Reply) (c : Option ResponseCache.Cache)
      → length b.body.content ≤ max_body_bytes
      → b.body.failure ≡ none
      → is_kept world (new_response b.status b.header b.body.content) ≡ true
      → (land world later url (answered b) c).0
        ≡ (ResponseCache.set later url (new_response b.status b.header b.body.content) c).0
  unfolding land settle
  settle_kept later url b c small fine kept =
      rw (read_body_with_limit_whole b.body max_body_bytes small fine, settle, kept) refl

  fetch_kept :
      (course : Course) (url : Bytes) (c : Option ResponseCache.Cache) (b : Reply)
      → IsAnswered world course url c b
      → (fetch_anonymous_token world course url c).cache
        ≡ (ResponseCache.set course.later url
            (new_response b.status b.header b.body.content)
            (ResponseCache.get course.now url c).0).0
  unfolding fetch_anonymous_token fly flight send
  fetch_kept course url c b h =
      rw
        (
          h.begun,
          fetch_anonymous_token,
          waited-cache world,
          h.own,
          fly,
          h.miss,
          flight,
          made_lem url h.valid,
          send,
          h.got,
        )
        (settle_kept course.later url b (ResponseCache.get course.now url c).0 h.small h.whole_body
          h.kept)

module _ (deps : Deps) (store : Store) where
  look_or_fetch_hit :
      (world : World) (course : Course) (url : Bytes) (c : Option ResponseCache.Cache)
      (e : Response)
      → readable course.now url c ≡ some e
      → ((look_or_fetch deps store world course url c).result ≡ fetched e)
        × ((look_or_fetch deps store world course url c).asked ≡ [])
  unfolding look_or_fetch
  look_or_fetch_hit world course url c e h =
      let hit = (readable-get course.now url c).0 ∙ h in
      (rw (hit, look_or_fetch) refl, rw (hit, look_or_fetch) refl)

  serve_hit :
      (world : World) (course : Course) (r : Request) (url : Bytes) (s : Redirect deps store)
      (e : Response)
      → readable course.now url s.token_cache ≡ some e
      → (res : Result deps store) × (serve_anonymous_token deps store world course r url s
          ≡ some res)
        × (res.writer ≡ relay url e)
        × (res.asked ≡ [])
        × (res.server.rate_limiter ≡ s.rate_limiter)
  unfolding serve_anonymous_token
  serve_hit world course r url s e h =
      let hit = (readable-get course.now url s.token_cache).0 ∙ h in
      (
        record {
          server = record s { token_cache = (ResponseCache.get course.now url s.token_cache).0 };
          writer = relay url e;
          asked = [];
        },
        rw (hit, serve_anonymous_token) refl,
        refl,
        refl,
        refl,
      )

  -- Where a call has started a fetch that the registry answered with a token, and the cache is within
  -- its cap and took the answer, then within the time to live, and whatever the registry says by then,
  -- every call of `getToken` for the same URL has that answer, and every anonymous request for it is
  -- answered with it, without a request to the registry or a charge at the limiter. That is so also
  -- where the client of the first call left before the answer came.
  pub token_reuses :
      (world world' : World) (course course' : Course) (url : Bytes) (c : ResponseCache.Cache)
      (b : Reply)
      → IsAnswered world course url (some c) b
      → IsBounded c
      → (ResponseCache.set course.later url
          (new_response b.status b.header b.body.content)
          (ResponseCache.get course.now url (some c)).0).1
        ≡ true
      → course.later ≤ course'.now
      → course'.now < course.later + c.ttl
      → (((look_or_fetch deps store world' course' url
              (fetch_anonymous_token world course url (some c)).cache).result
            ≡ fetched (new_response b.status b.header b.body.content))
          × ((look_or_fetch deps store world' course' url
                (fetch_anonymous_token world course url (some c)).cache).asked
              ≡ []))
        × ((r : Request) (s : Redirect deps store)
            → s.token_cache ≡ (fetch_anonymous_token world course url (some c)).cache
            → (res : Result deps store) × (serve_anonymous_token deps store world' course' r url s
                ≡ some res)
              × (res.writer ≡ relay url (new_response b.status b.header b.body.content))
              × (res.asked ≡ [])
              × (res.server.rate_limiter ≡ s.rate_limiter))
  token_reuses world world' course course' url c b h bounded taken from till =
      let e = new_response b.status b.header b.body.content in
      let (c', got, ttl, bounded') = get-Cache course.now url c bounded in
      let hit : readable course'.now url (fetch_anonymous_token world course url (some c)).cache
          ≡ some e =
        rw (fetch_kept world course url (some c) b h, got)
          (readable_stored course.later course'.now url e c' bounded' (rw got at taken) from
            (omega (arith, ttl, till))) in
      (
        look_or_fetch_hit world' course' url _ e hit,
        λ r s same. serve_hit world' course' r url s e (ap (readable course'.now url) same ∙ hit),
      )
