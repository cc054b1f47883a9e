-- ===== src/Lib.antt =====
-- Verification of registry-redirect: the proxy that serves a container registry under a name of its
-- own in front of ghcr.io or gcr.io.
--
-- A request comes in through main.go, which labels its path for the metrics, and is handled by
-- pkg/redirect, which answers from a cache, refuses it or asks the registry. The parts modelled here
-- are the ones that keep state or decide:
--
-- - Paths (Paths.antt, Paths/): `metricPath` and `hasRegistryPathSeparator` of main.go,
--   `backendOperation` of pkg/redirect/redirect.go, `isBlobRequest` of pkg/redirect/rate_limiter.go.
-- - ClientIp: `clientIP` of pkg/redirect/rate_limiter.go, with `net.SplitHostPort`.
-- - RateLimiter: `ipRateLimiter` of the same file. RateLimiter/Limits has the overrides, Clients the
--   client map and its eviction, State the limiter and its methods; Oldest, Bounds, Requests,
--   Precedence and History have the proofs.
-- - Tracker: pkg/redirect/rate_limit_tracker.go, which the limiter tells of each refused request.
-- - ManifestCache: pkg/redirect/manifest_cache.go. ManifestCache/Lru is what it promises, a list of
--   recent entries; Refines and History compare the two.
-- - ResponseCache: pkg/redirect/response_cache.go, the cache of tokens and of /v2/ answers.
-- - BlobCache: pkg/redirect/blob_cache.go, the cache of redirects to signed links.
-- - V2: pkg/redirect/v2.go, the handler of /v2/. V2/Replay has what passes through it,
--   V2/Charged when the registry is asked, V2/Reuse what it answers from the cache.
-- - Tokens: pkg/redirect/anonymous_token.go, the handler of /token and the tokens of the proxy.
--   Tokens/Queries makes the URLs, Tokens/Flight fetches. Cached and Keeping are about the contents of
--   the cache, Charging about the requests that go out, Fetching and Sharing about one token for many
--   clients, Ending about replies.
-- - Flights: the accesses of `fetchAnonymousToken` to the shared state, one step each, in any order.
--   Shared is about the functions that run and the cache, Served about the callers that wait.
-- - Query: `url.Values` with its encoding, the key of token URLs.
-- - Proxy: `proxy`, `blobRedirectCacheKey` and `serveCachedBlobRedirect` of pkg/redirect/redirect.go.
--   Proxy/Addresses has URLs, prefixes and links, and Outcomes the ways a request can go. Links
--   follows a link back to the registry; Granting, Sending, Ending and Asking follow a request through
--   all branches; Relaying is about the answers of the registry, Again and Replay about those of the
--   two caches.
-- - Redirect: the struct `redirect`, which the handlers share, and the registry and the parsers, `World`.
-- - Redact: `redact` of the same file, through which headers go on their way to the log.
-- - Status: `statusResponseWriter` and `CustomHandler.ServeHTTP` of main.go.
-- - Server: `redirectOptions`, `serve` and `rateLimitedIPsHandler` of main.go, and `NewWithOptions` of
--   pkg/redirect/redirect.go. Configuring and Starting have what a server starts with, Stepping and
--   Serving what any sequence of requests leaves. Samples has parameters for the tests.
-- - Manifests: `manifestCacheKey`, `serveCachedManifest`, `proxyAndCacheManifest` and
--   `ifNoneMatchMatches` of pkg/redirect/redirect.go.
-- - Http: the response writer, bodies and errors that the handlers use, with `readBodyWithLimit`,
--   `copyHeaders`, `backendErrorStatus` and `backendErrorClass` of the same file.
-- - Config: pkg/redirect/rate_limit_config.go, with `splitIPRateLimitConfigPaths`,
--   `loadIPRateLimitOverrides` and `countIPRateLimitRanges` of main.go. Config/Sound has what an override
--   that loads is like, Config/Loading what the files together give.
-- - Options: pkg/redirect/options.go, the defaults that the limiter and the caches start from.
-- - GoMap, Strings, Header, Decimal and Request: what the code uses of Go's maps, strings,
--   `http.Header`, `strconv.Itoa` and `http.Request`. Prelude has the names that all share.
--
-- A method under a mutex is one step, and so is a request at the limiter, with the `AllowN` that
-- follows its lock: the bucket has a lock of its own. Strings are lists of bytes. Times are
-- nanoseconds from a moment before all of them, and the time that a method reads is its argument.
-- The time to live of a link is an int64, as `Time.Sub` and the subtraction after it leave it. A Go
-- map is an association list whose order is that of the `range` loops, and it can be any order.
-- Sizes are unbounded: the caches stop at some hundred megabytes, far below 2 ^ 63. The counters of
-- the tracker wrap around at 2 ^ 64.
--
-- A client reads its reply to the end, and an error of a body comes in a read of its own. An answer of
-- the registry has a final status, since net/http gives its callers no informational one. A handler looks
-- into the cache and the limiter at one time, and stores what the registry answers at another.
--
-- Requests are handled one after the other in Server/Serving, each with its own answers of the registry;
-- what a handler leaves of the shared state is what the next one finds.
--
-- The two eviction loops run on fuel, one round for each entry. A loop that runs out of it returns
-- `none`.
--
-- Not modelled: the buckets of golang.org/x/time/rate, net/netip and go4.org/netipx, which are the
-- fields of RateLimiter/Deps; the store of ristretto and the parsing of links and dates, which
-- BlobCache takes as `Store` and `Dates`; the registry, net/url and the JSON of tokens and lists,
-- which are the fields of `World` in Redirect; golang.org/x/sync/singleflight, which is the `Group`
-- of Flights, and of which a `Course` of Tokens/Flight says whether a call joins a fetch and with
-- what result; the routes of gorilla/mux, so that a path that leads to `proxy` is one of five parts
-- or more; the opening and decoding of the configuration files, which is a field of `Reader` in
-- Config; the metrics of the registry, log lines, listeners and signals.
mod Prelude
pub mod Flights
pub mod GoMap
pub mod Status
pub mod Strings
pub mod Proxy
pub mod Query
pub mod Paths
pub mod Header
pub mod Http
pub mod Redact
pub mod Redirect
pub mod Tokens
pub mod V2
pub mod Manifests
pub mod Config
pub mod Decimal
pub mod BlobCache
pub mod Options
pub mod Request
pub mod Samples
pub mod Server
pub mod ClientIp
pub mod RateLimiter
pub mod ManifestCache
pub mod ResponseCache
pub mod Tracker
