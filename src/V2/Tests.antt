-- ===== src/V2/Tests.antt =====
-- Runs of the /v2/ handler without a limiter, and its theorems there.
use registry_redirect.Prelude.{
  ℕ, ◌+◌, ◌≤◌, ◌<◌, ◌≡◌, ◌⊎◌, inr, refl, true, none, some, [], ◌∷◌, Bytes-discrete, codes, arith,
}
use registry_redirect.GoMap.{lookup, insert, erase, sweep}
use registry_redirect.Header
use registry_redirect.Header.{Header, is_method}
use registry_redirect.Http.{
  write_header, write, read_body_with_limit, Outgoing, Reply, Back, answered,
}
use registry_redirect.RateLimiter.State.{allow_request}
use registry_redirect.Request.{Request}
use registry_redirect.ResponseCache
use registry_redirect.ResponseCache.{new_response}
use registry_redirect.ResponseCache.Bounds.{IsBounded}
use registry_redirect.Samples.{trivial}
use registry_redirect.Strings.{after_prefix, replace_first}
use registry_redirect.V2.{
  v2_key, is_get, is_kept, reply_header, send, rewrite_realm, write_v2_values, write_v2_headers,
  upstream_url, Server, Result, finish, reply, request_for, ask, upstream, v2,
}
use registry_redirect.V2.Replay.{IsAnswered, v2_passes}
use registry_redirect.V2.Charged.{v2_charged}
use registry_redirect.V2.Reuse.{v2_reuses}

program : Unit {0}
unfolding lookup insert erase sweep Bytes-discrete Header.get Header.set Header.add is_method
    write_header write read_body_with_limit allow_request after_prefix replace_first rewrite_realm
    write_v2_values write_v2_headers upstream_url finish reply ask upstream v2 new_response
    ResponseCache.init ResponseCache.get ResponseCache.set ResponseCache.has ResponseCache.set_full
    ResponseCache.drop_expired ResponseCache.store
program = tt

abbrev client : Request
client = record {
  method = codes "GET";
  url = codes "/v2/";
  path = codes "/v2/";
  query = [];
  host = codes "a.example";
  header = [];
  remote_addr = codes "10.0.0.1:80";
}

abbrev challenge : Reply
challenge = record {
  status = 401;
  header = (codes "Www-Authenticate", codes "Bearer realm=\"https://ghcr.io/token\"" ∷ []) ∷ [];
  body = record { content = codes "{}"; failure = none };
}

abbrev registry : Outgoing → Back
registry _ = answered challenge

abbrev cache : ResponseCache.Cache
cache = record { ttl = 60; max = 1; entries = [] }

abbrev server : Server trivial
server = record { host = codes "ghcr.io"; rate_limiter = none; v2_cache = some cache }

realm :
    reply_header (codes "ghcr.io") client challenge.header
    ≡ (codes "X-Redirected", codes "/v2/" ∷ [])
      ∷ (codes "Www-Authenticate", codes "Bearer realm=\"https://a.example/token\"" ∷ [])
      ∷ []
unfolding program
realm = refl

challenge-IsAnswered : IsAnswered trivial registry 5 client server challenge none
unfolding program
challenge-IsAnswered = record {
  miss = inr refl;
  method = refl;
  allowed = refl;
  got = refl;
  whole_body = refl;
}

v2_passes_example :
    (s' : Server trivial) × (v2 trivial registry [] 5 7 client server
      ≡ some (record {
        server = s';
        writer = record {
          header = reply_header (codes "ghcr.io") client challenge.header;
          sent = some (401, reply_header (codes "ghcr.io") client challenge.header);
          body = codes "{}";
        };
        asked = request_for trivial server client ∷ [];
      }))
    × (s'.rate_limiter ≡ none)
    × (s'.host ≡ codes "ghcr.io")
v2_passes_example =
    v2_passes trivial registry [] 5 7 client server challenge none challenge-IsAnswered

abbrev after : Result trivial
after = record {
  server = record server {
    v2_cache = some (record cache {
      entries =
          (
            v2_key,
            record {
              value = record { status = 401; header = challenge.header; body = codes "{}" };
              expires_at = 67;
            },
          )
          ∷ [];
    });
  };
  writer = send 401 (reply_header (codes "ghcr.io") client challenge.header) (codes "{}");
  asked = request_for trivial server client ∷ [];
}

first_request : v2 trivial registry [] 5 7 client server ≡ some after
unfolding program
first_request = refl

v2_charged_example :
    (after.asked ≡ [])
    ⊎ ((after.asked ≡ request_for trivial server client ∷ [])
        × (allow_request trivial 5 client none ≡ some (none, true)))
v2_charged_example = v2_charged trivial registry [] 5 7 client server after first_request

cache-IsBounded : IsBounded cache
cache-IsBounded = record { is_map = tt; capped = omega arith }

taken :
    (ResponseCache.set 7 v2_key
      (new_response 401 challenge.header (codes "{}"))
      (ResponseCache.get 5 v2_key (some cache)).0).1
    ≡ true
unfolding program
taken = refl

kept : is_kept client challenge ≡ true
unfolding program
kept = refl

v2_reuses_example :
    (res : Result trivial) × (v2 trivial registry [] 5 7 client server ≡ some res)
    × ((answer' : Outgoing → Back) (t t' : ℕ) (q : Request)
        → is_get q ≡ true
        → 7 ≤ t
        → t < 7 + 60
        → (res' : Result trivial) × (v2 trivial answer' [] t t' q res.server ≡ some res')
          × (res'.writer
              ≡ send 401 (reply_header (codes "ghcr.io") q challenge.header) (codes "{}"))
          × (res'.asked ≡ [])
          × (res'.server.rate_limiter ≡ none))
v2_reuses_example =
    v2_reuses trivial registry [] 5 7 client server challenge none cache challenge-IsAnswered kept
      (omega arith) refl cache-IsBounded taken
