-- ===== src/Tokens/Tests.antt =====
-- A run of the token handler without a limiter, and its theorems there.
use registry_redirect.Prelude.{
  ◌≡◌, refl, true, false, none, some, [], ◌∷◌, Bytes, Bytes-discrete, codes, arith,
}
use registry_redirect.GoMap.{lookup, insert, erase, sweep}
use registry_redirect.Header
use registry_redirect.Header.{is_method}
use registry_redirect.Http.{
  write_header, write, read_body_with_limit, Reply, copy_values, copy_headers,
}
use registry_redirect.Query
use registry_redirect.Query.Order.{IsSame}
use registry_redirect.RateLimiter.State.{allow_request}
use registry_redirect.Redirect.{World, Redirect, Result, new_backend_request}
use registry_redirect.Request.{Request}
use registry_redirect.ResponseCache
use registry_redirect.ResponseCache.{new_response}
use registry_redirect.ResponseCache.Bounds.{IsBounded}
use registry_redirect.Samples.{trivial, no_store, answering}
use registry_redirect.Strings.{split, join, less_bytes, after_prefix, replace_first}
use registry_redirect.Tokens.{
  token_url, fetched, stays, leaves, Course, is_kept, settle, land, send, flight, fly,
  fetch_anonymous_token, relay, relay_fetched, with_scope, token_values, repo_parts, pull_values,
  token_of, token_is, look_or_fetch, get_token, serve_fetched, serve_anonymous_token, relay_request,
  token,
}
use registry_redirect.Tokens.Charging.{fetch_request}
use registry_redirect.Tokens.Fetching.{IsAnswered, token_reuses}
use registry_redirect.Tokens.Cached.{IsGood}
use registry_redirect.Tokens.Keeping.{token-IsGood}
use registry_redirect.Tokens.Sharing.{
  client_values, pull_scope, public_name, routed, token_url_shared,
}

program : Unit {0}
unfolding lookup insert erase sweep Bytes-discrete Header.get Header.set Header.add is_method
    write_header write read_body_with_limit copy_values copy_headers allow_request split join
    less_bytes after_prefix replace_first token_url is_kept settle land send flight fly
    fetch_anonymous_token relay relay_fetched with_scope token_values repo_parts pull_values
    token_of look_or_fetch get_token serve_fetched serve_anonymous_token relay_request token
    new_response new_backend_request Query.get Query.set Query.encode Query.escape Query.escape_byte
    Query.insert_key Query.sort_keys Query.pairs_of Query.pairs ResponseCache.init ResponseCache.get
    ResponseCache.set ResponseCache.has ResponseCache.set_full ResponseCache.drop_expired
    ResponseCache.store
program = tt

-- A registry that hands out one token, to whoever asks.
abbrev reply : Reply
reply = record {
  status = 200;
  header = (codes "Content-Type", codes "application/json" ∷ []) ∷ [];
  body = record { content = codes "t"; failure = none };
}

abbrev world : World
world = answering reply

abbrev cache : ResponseCache.Cache
cache = record { ttl = 60; max = 1; entries = [] }

abbrev server : Redirect trivial no_store
server = record {
  host = codes "ghcr.io";
  repo = codes "dagger";
  prefix = codes "p";
  rate_limiter = none;
  manifest_cache = none;
  blob_cache = none;
  token_cache = some cache;
  v2_cache = none;
}

abbrev query : Query.Values
query =
    (codes "service", codes "ghcr.io" ∷ [])
    ∷ (codes "scope", codes "repository:p/engine:pull" ∷ [])
    ∷ []

abbrev client : Request
client = record {
  method = codes "GET";
  url = codes "/token";
  path = codes "/token";
  query = query;
  host = codes "a.example";
  header = [];
  remote_addr = codes "10.0.0.1:80";
}

abbrev course : Course
course = record { now = 5; later = 7; patience = stays; joined = none }

abbrev url : Bytes
url = codes "https://ghcr.io/token?scope=repository%3Adagger%2Fengine%3Apull&service=ghcr.io"

abbrev after : Result trivial no_store
after = record {
  server = record server {
    token_cache = some (record cache {
      entries =
          (
            url,
            record {
              value = record { status = 200; header = reply.header; body = codes "t" };
              expires_at = 67;
            },
          )
          ∷ [];
    });
  };
  writer = relay url (record { status = 200; header = reply.header; body = codes "t" });
  asked = fetch_request url ∷ [];
}

-- A pull without a token, under the same prefix, and the token that it gets.
abbrev pull : Request
pull = record client { path = codes "/v2/p/engine/manifests/main" }

pulled : (get_token trivial no_store world course pull server).1 ≡ token_is (codes "t")
unfolding program
pulled = refl

cache-IsBounded : IsBounded cache
cache-IsBounded = record { is_map = tt; capped = omega arith }

cache-IsGood : IsGood world 5 (some cache)
unfolding lookup
cache-IsGood = record {
  bounded = cache-IsBounded;
  good = λ t key e later found. absurd (ground arith);
}

token-IsGood_example :
    ((res : Result trivial no_store)
      → token trivial no_store world course client server ≡ some res
      → IsGood world 7 res.server.token_cache)
    × IsGood world 7 (get_token trivial no_store world course client server).0.token_cache
token-IsGood_example =
    token-IsGood trivial no_store world course client server (omega arith) cache-IsGood

-- A client that leaves.
abbrev left : Course
left = record course {
  patience =
      leaves (record { text = []; canceled = true; deadline_exceeded = false; timeout = false });
}

left-IsAnswered : IsAnswered world left url (some cache) reply
unfolding program
left-IsAnswered = record {
  own = refl;
  begun = refl;
  miss = refl;
  valid = refl;
  got = refl;
  small = omega arith;
  whole_body = refl;
  kept = refl;
}

taken :
    (ResponseCache.set 7 url
      (new_response 200 reply.header (codes "t"))
      (ResponseCache.get 5 url (some cache)).0).1
    ≡ true
unfolding program
taken = refl

abbrev next : Course
next = record { now = 66; later = 66; patience = stays; joined = none }

token_reuses_example :
    (((look_or_fetch trivial no_store world next url
          (fetch_anonymous_token world left url (some cache)).cache).result
        ≡ fetched (new_response 200 reply.header (codes "t")))
      × ((look_or_fetch trivial no_store world next url
            (fetch_anonymous_token world left url (some cache)).cache).asked
          ≡ []))
    × ((r : Request) (s : Redirect trivial no_store)
        → s.token_cache ≡ (fetch_anonymous_token world left url (some cache)).cache
        → (res : Result trivial no_store) × (serve_anonymous_token trivial no_store world next r url
              s
            ≡ some res)
          × (res.writer ≡ relay url (new_response 200 reply.header (codes "t")))
          × (res.asked ≡ [])
          × (res.server.rate_limiter ≡ s.rate_limiter))
token_reuses_example =
    token_reuses trivial no_store world world left next url cache reply left-IsAnswered
      cache-IsBounded taken (omega arith) (omega arith)

query-IsSame :
    IsSame query
      (client_values (codes "ghcr.io") (pull_scope (public_name (codes "p") (codes "engine" ∷ []))))
unfolding lookup join
query-IsSame k = ground arith

token_url_shared_example :
    (repo_parts
        (codes "p")
        (routed (codes "p") (codes "engine" ∷ []) (codes "manifests") (codes "main"))
      ≡ some (codes "engine" ∷ []))
    × (token_url (codes "ghcr.io") (token_values (codes "p") (codes "dagger") query)
        ≡ token_url
            (codes "ghcr.io")
            (pull_values (codes "ghcr.io") (codes "dagger") (codes "engine" ∷ [])))
token_url_shared_example =
    token_url_shared (codes "ghcr.io") (codes "p") (codes "dagger") (codes "manifests")
      (codes "main") (codes "engine") [] query (ground arith) (unfold program in (refl, (refl, tt)))
      query-IsSame
