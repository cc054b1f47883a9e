-- ===== src/Server/Serving.antt =====
-- The server over any sequence of requests, whatever the registry says at each.
use registry_redirect.Prelude.{ℕ, ◌≤◌, ◌≡◌, ◌≢◌, some, [], length}
use registry_redirect.BlobCache.{Dates, Store}
use registry_redirect.BlobCache.Fresh.{IsStore}
use registry_redirect.ClientIp.{client_ip}
use registry_redirect.Http.{Outgoing, Back}
use registry_redirect.Options.{Options}
use registry_redirect.Proxy.{proxy}
use registry_redirect.RateLimiter.Deps.{Deps}
use registry_redirect.Redirect.{World, Redirect, Result}
use registry_redirect.Request.{Request}
use registry_redirect.Server.{handle_v2}
use registry_redirect.Strings.{split}
use registry_redirect.Tokens.{Course, token}

-- The world with another registry: other answers, and the same parsers.
abbrev pub with_registry : World → (Outgoing → Back) → (Outgoing → Back) → World
with_registry world client proxy_client = record world {
  client = client;
  proxy_client = proxy_client;
}

module _ (deps : Deps) (store : Store) (world : World) (dates : Dates) (law : IsStore store) where
  -- The states that the requests of named clients lead to, one after the other, each with its own answers
  -- of the registry.
  pub data Reached (first : Redirect deps store) : ℕ → Redirect deps store → Type 0 where
    start : (now : ℕ) → Reached first now first
    proxied :
        (now later : ℕ) (s : Redirect deps store) (client proxy_client : Outgoing → Back)
        (course : Course) (r : Request) (res : Result deps store)
        → Reached first now s
        → now ≤ course.now
        → course.now ≤ course.later
        → 5 ≤ length (split b'/' r.path)
        → client_ip r ≢ []
        → proxy deps store (with_registry world client proxy_client) dates course later r s
          ≡ some res
        → Reached first course.later res.server
    given_token :
        (now : ℕ) (s : Redirect deps store) (client proxy_client : Outgoing → Back)
        (course : Course) (r : Request) (res : Result deps store)
        → Reached first now s
        → now ≤ course.now
        → course.now ≤ course.later
        → client_ip r ≢ []
        → token deps store (with_registry world client proxy_client) course r s ≡ some res
        → Reached first course.later res.server
    challenged :
        (now at later : ℕ) (s : Redirect deps store) (client proxy_client : Outgoing → Back)
        (r : Request) (res : Result deps store)
        → Reached first now s
        → now ≤ at
        → at ≤ later
        → client_ip r ≢ []
        → handle_v2 deps store (with_registry world client proxy_client) at later r s ≡ some res
        → Reached first later res.server
