-- ===== src/Proxy/Tests.antt =====
-- Runs of the proxy without a limiter, and its theorems there.
use registry_redirect.Prelude.{
  ℕ, ◌≡◌, refl, none, some, [], ◌∷◌, ◌++◌, Bytes, Bytes-discrete, codes, arith,
}
use registry_redirect.BlobCache
use registry_redirect.BlobCache.{Dates, Store}
use registry_redirect.Decimal.{itoa}
use registry_redirect.GoMap.{lookup, insert, erase, sweep}
use registry_redirect.Header
use registry_redirect.Header.{is_method}
use registry_redirect.Http.{
  write_header, write, read_body_with_limit, Reply, copy_values, copy_headers,
}
use registry_redirect.ManifestCache
use registry_redirect.ManifestCache.{entry_size}
use registry_redirect.ManifestCache.Refines.{init-IsValid}
use registry_redirect.Manifests.{manifest_cache_key}
use registry_redirect.Manifests.Passing.{sent}
use registry_redirect.Paths.{nth}
use registry_redirect.Proxy.{
  upstream_base, trim_path, with_query, rewrite_link, add_values, add_headers, serve_list,
  cached_manifest, pass_body, serve_cached_blob_redirect, blob_redirect_cache_key, cached_blob,
  keep_manifest, keep_blob, pass, finish, forward, with_token, authorize, ask, past_manifest,
  proxy_url, url_of, proxy,
}
use registry_redirect.Proxy.Again.{IsAgain, proxy_reuses}
use registry_redirect.Proxy.Links.{
  trim_path-repo_parts, client_path, site, link_followed, link_without_repo,
}
use registry_redirect.Proxy.Relaying.{IsReached, reply_writer}
use registry_redirect.Query
use registry_redirect.RateLimiter.State.{allow_request}
use registry_redirect.Redirect.{World, Redirect, Result, new_backend_request}
use registry_redirect.Request.{Request}
use registry_redirect.ResponseCache
use registry_redirect.Samples.{trivial, no_store, answering}
use registry_redirect.Strings.{
  split, join, less_bytes, after_prefix, has_prefix, trim_prefix, contains, replace_first,
}
use registry_redirect.Tokens.Sharing.{routed}
use registry_redirect.Tokens.{
  Course, stays, token_url, settle, land, send, flight, fly, fetch_anonymous_token, is_kept,
  repo_parts, pull_values, token_of, look_or_fetch, get_token,
}

program : Unit {0}
unfolding lookup insert erase sweep Bytes-discrete Header.get Header.set Header.add Header.del
    Header.values is_method itoa write_header write read_body_with_limit copy_values copy_headers
    allow_request split join less_bytes after_prefix has_prefix trim_prefix contains replace_first
    token_url is_kept settle land send flight fly fetch_anonymous_token repo_parts pull_values
    token_of look_or_fetch get_token new_backend_request nth Query.get Query.set Query.encode
    Query.escape Query.escape_byte Query.insert_key Query.sort_keys Query.pairs_of Query.pairs
    ResponseCache.new_response ResponseCache.get ResponseCache.set Header.add_header_sizes
    Header.add_value_sizes manifest_cache_key ManifestCache.init ManifestCache.get entry_size
    upstream_base trim_path with_query rewrite_link add_values add_headers serve_list
    cached_manifest pass_body serve_cached_blob_redirect blob_redirect_cache_key cached_blob
    keep_manifest keep_blob pass finish forward with_token authorize ask past_manifest proxy_url
    proxy
program = tt

abbrev no_dates : Dates
no_dates = record {
  expiry_parameter = λ _. none;
  parse_rfc3339 = λ _. none;
  parse_rfc3339_nano = λ _. none;
}

abbrev page : Reply
page = record {
  status = 200;
  header = (codes "Link", codes "</v2/dagger/engine/tags/list?n=1>" ∷ []) ∷ [];
  body = record { content = codes "dagger/engine"; failure = none };
}

abbrev world : World
world = answering page

abbrev cache : ManifestCache.Cache
cache = ManifestCache.init 1000

abbrev server : Redirect trivial no_store
server = record {
  host = codes "ghcr.io";
  repo = codes "dagger";
  prefix = codes "p";
  rate_limiter = none;
  manifest_cache = some cache;
  blob_cache = none;
  token_cache = none;
  v2_cache = none;
}

abbrev client : Request
client = record {
  method = codes "GET";
  url = codes "/v2/p/engine/manifests/main";
  path = codes "/v2/p/engine/manifests/main";
  query = [];
  host = codes "a.example";
  header = (codes "Authorization", codes "Bearer t" ∷ []) ∷ [];
  remote_addr = codes "10.0.0.1:80";
}

abbrev list_client : Request
list_client = record client { path = codes "/v2/p/engine/tags/list" }

abbrev blob_client : Request
blob_client = record client { path = codes "/v2/p/engine/blobs/b" }

abbrev bare : Request
bare = record client { header = [] }

abbrev course : Course
course = record { now = 5; later = 7; patience = stays; joined = none }

abbrev path : Bytes
path = codes "engine/manifests/main"

manifest_url :
    url_of trivial no_store server client path
    ≡ codes "https://ghcr.io/v2/dagger/engine/manifests/main"
unfolding program
manifest_url = refl

page_link :
    rewrite_link
      (codes "dagger")
      (codes "p")
      (codes "a.example")
      (codes "</v2/dagger/engine/tags/list?n=1>")
    ≡ codes "</v2/p/engine/tags/list?n=1>"
unfolding program
page_link = refl

link_followed_example :
    (rewrite_link
        (codes "dagger")
        (codes "p")
        (codes "a.example")
        (codes "</v2/" ++ (codes "dagger" ++ b'/' ∷ (codes "engine/tags/list" ++ codes "?n=1>")))
      ≡ b'<'
        ∷ (client_path (codes "p") (codes "a.example") (codes "engine/tags/list") ++ codes "?n=1>"))
    × (trim_path
          (codes "p")
          (codes "a.example")
          (client_path (codes "p") (codes "a.example") (codes "engine/tags/list"))
        ≡ some (codes "engine/tags/list"))
    × (upstream_base (codes "ghcr.io") (codes "dagger") ++ codes "engine/tags/list"
        ≡ site (codes "ghcr.io")
          ++ (codes "/v2/" ++ (codes "dagger" ++ b'/' ∷ codes "engine/tags/list")))
link_followed_example =
    link_followed (codes "ghcr.io") (codes "dagger") (codes "p") (codes "a.example")
      (codes "engine/tags/list") (codes "?n=1>") (λ e. ground arith)

link_without_repo_example :
    (rewrite_link []
        (codes "p")
        (codes "a.example")
        (codes "</v2/" ++ (codes "engine/tags/list" ++ codes "?n=1>"))
      ≡ b'<' ∷ ((codes "/v2/" ++ (codes "p" ++ codes "engine/tags/list")) ++ codes "?n=1>"))
    × (trim_path
          (codes "p")
          (codes "a.example")
          (codes "/v2/" ++ (codes "p" ++ codes "engine/tags/list"))
        ≡ none)
link_without_repo_example =
    link_without_repo (codes "p") (codes "a.example") (codes "engine/tags/list") (codes "?n=1>")
      (unfold program in refl) (unfold program in refl)

blob_client-IsReached :
    IsReached trivial no_store world no_dates 5 blob_client server
      (codes "engine/blobs/b")
      none
      page
unfolding program
blob_client-IsReached = record {
  trimmed = refl;
  no_manifest = refl;
  no_blob = refl;
  method = refl;
  valid = refl;
  allowed = refl;
  own = refl;
  got = refl;
}

client-IsReached : IsReached trivial no_store world no_dates 5 client server path none page
unfolding program
client-IsReached = record {
  trimmed = refl;
  no_manifest = refl;
  no_blob = refl;
  method = refl;
  valid = refl;
  allowed = refl;
  own = refl;
  got = refl;
}

abbrev key : Bytes
key = codes "https://ghcr.io/v2/dagger/engine/manifests/main\naccept:"

key_of_client :
    manifest_cache_key (some cache) client (url_of trivial no_store server client path) ≡ some key
unfolding program
key_of_client = refl

-- The same page for a client without an authorization.
bare-IsAgain : IsAgain trivial no_store no_dates server client path bare
unfolding program
bare-IsAgain = record {
  page = path;
  trimmed = refl;
  same = refl;
  get = refl;
  manifest = refl;
  accept = refl;
  plain = refl;
}

proxy_reuses_example :
    (res : Result trivial no_store) × (proxy trivial no_store world no_dates course 9 client server
      ≡ some res)
    × (res.writer
        ≡ sent page (reply_writer trivial no_store world no_dates server client path page))
    × ((world' : World) (course' : Course) (later' : ℕ) (q : Request)
        → IsAgain trivial no_store no_dates server client path q
        → (res' : Result trivial no_store) × (proxy trivial no_store world' no_dates course' later'
              q res.server
            ≡ some res')
          × ((h : Header.Header) × (res'.writer
                ≡ record { header = h; sent = some (200, h); body = codes "dagger/engine" }))
          × (res'.asked ≡ [])
          × (res'.server.rate_limiter ≡ none))
proxy_reuses_example =
    proxy_reuses trivial no_store no_dates world course 9 client server path key none page cache
      client-IsReached (unfold program in refl) (unfold program in refl) refl refl
      (init-IsValid 1000).0 key_of_client refl (unfold program in omega arith)
      (unfold program in omega arith)

trim_path-repo_parts_example :
    (trim_path
        (codes "p")
        (codes "registry.dagger.io")
        (join b'/' (routed (codes "p") (codes "engine" ∷ []) (codes "manifests") (codes "main")))
      ≡ some (join b'/' (codes "p" ∷ codes "engine" ∷ codes "manifests" ∷ codes "main" ∷ [])))
    × (repo_parts (codes "p") (
          split b'/' (
            join b'/'
              (routed (codes "p") (codes "engine" ∷ []) (codes "manifests") (codes "main"))))
        ≡ some (codes "engine" ∷ []))
trim_path-repo_parts_example =
    trim_path-repo_parts b'p' [] (codes "manifests") (codes "main") (codes "engine") []
      (ground arith)
