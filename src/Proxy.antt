-- ===== src/Proxy.antt =====
-- `proxy` of pkg/redirect/redirect.go, the handler of manifests, blobs and lists of tags: the URL of the
-- registry, the two caches, the token of a request that comes without one, and the reply with its links
-- and names. The result is `none` where the limiter does not answer, and where an index is out of its
-- bounds, which no route leads to.
pub mod Addresses
pub mod Links
pub mod Ending
pub mod Granting
pub mod Sending
pub mod Outcomes
pub mod Asking
pub mod Again
pub mod Replay
pub mod Relaying
mod Tests
use registry_redirect.Prelude.{
  ℕ, ◌+◌, ◌-◌, ◌*◌, Bool, true, false, not, ◌&&◌, ◌||◌, Option, none, some, List, [], ◌∷◌, ◌++◌,
  Bytes, codes, ◌==◌, ◌⊎◌, inl, inr, ltb, if◌then◌else◌, length,
}
use registry_redirect.BlobCache
use registry_redirect.BlobCache.{Dates, Store}
use registry_redirect.Decimal.{itoa}
use registry_redirect.Header
use registry_redirect.Header.{Header}
use registry_redirect.Http.{
  Writer, new_writer, write_header, write, error, copy_headers, backend_error_status, Outgoing,
  Reply, Back, failed, answered,
}
use registry_redirect.ManifestCache
use registry_redirect.Manifests.{
  manifest_cache_key, serve_cached_manifest, proxy_and_cache_manifest,
}
use registry_redirect.Paths.{bytes_eq, nth}
use registry_redirect.Query.{Values, encode}
use registry_redirect.RateLimiter.Deps.{Deps}
use registry_redirect.RateLimiter.State.{allow_request}
use registry_redirect.Redirect.{World, Redirect, Result, new_backend_request}
use registry_redirect.Request.{Request}
use registry_redirect.Strings.{split, trim_prefix, has_prefix, contains, replace_first}
use registry_redirect.Tokens.{
  Course, is_nil, slashed, Token, token_is, status_is, fails_with, panics, get_token, refused,
}
unfoldable pub use registry_redirect.Proxy.Addresses.{
  upstream_base, trim_path, with_query, rewrite_link, add_values, add_headers,
}
pub use registry_redirect.Proxy.Addresses.{needs_prefix}

abbrev pub prefix_required : Writer
prefix_required =
    write
      (codes
        "{\"errors\":[{\"code\":\"MANIFEST_UNKNOWN\",\"message\":\"Manifest unknown, prefix required\"}]}\n")
      (write_header 404 new_writer)

-- The list of tags with the name that the client uses, past the headers.
unfoldable pub serve_list : World → Bytes → Reply → Writer → Writer
serve_list world repo b w = elim (world.decode_list b.body) [
  | inl text ↦ error text 500 w
  | inr list ↦
      write (world.encode_list (record list { name = replace_first list.name (slashed repo) [] }))
        (write_header b.status (record w { header = Header.del w.header (codes "Content-Length") }))
]

-- The look into the manifest cache.
unfoldable pub cached_manifest :
    Request
    → Bytes
    → Option ManifestCache.Cache
    → Option ManifestCache.Cache × Option ManifestCache.Entry
cached_manifest r url none = (none, none)
cached_manifest r url (some c) = elim (manifest_cache_key (some c) r url) [
  | none ↦ (some c, none)
  | some key ↦ (some (ManifestCache.get key c).0, (ManifestCache.get key c).1)
]

-- The reply without its body if it is for a blob; `parts[len(parts)-2]` is out of bounds for a path
-- without a slash.
unfoldable pub pass_body : List Bytes → Reply → Writer → Option Writer
pass_body parts b w =
    if ltb (length parts) 2
    then none
    else if bytes_eq (nth (length parts - 2) parts) (codes "blobs")
    then some (write_header b.status w)
    else some (write b.body.content (write_header b.status w))

unfoldable pub serve_cached_blob_redirect : Bytes → BlobCache.Entry → Writer → Writer
serve_cached_blob_redirect url entry w =
    let header = Header.set (copy_headers w.header entry.header) (codes "X-Redirected") url in
    write_header entry.status (record w { header = header })

module _ (deps : Deps) (store : Store) where
  -- The URL of a path at the registry.
  abbrev pub url_of : Redirect deps store → Request → Bytes → Bytes
  url_of s r path = with_query r.query (upstream_base s.host s.repo ++ path)

module _ (deps : Deps) (store : Store) (world : World) (dates : Dates) where
  unfoldable pub blob_redirect_cache_key : Option store.State → Request → Bytes → Option Bytes
  blob_redirect_cache_key none r url = none
  blob_redirect_cache_key (some c) r url =
      if bytes_eq r.method (codes "GET")
      then if contains r.path (codes "/blobs/") then some (r.method ++ b'\n' ∷ url) else none
      else none

  unfoldable pub cached_blob : ℕ → Request → Bytes → Option store.State → Option BlobCache.Entry
  cached_blob now r url c = elim (blob_redirect_cache_key c r url) [
    | none ↦ none
    | some key ↦ BlobCache.get store now key c
  ]

  -- A reply that is offered to the manifest cache, which the handler has where there is a key.
  unfoldable pub keep_manifest :
      Bytes → Reply → Writer → Redirect deps store → Option (Redirect deps store × Writer)
  keep_manifest key b w s = elim s.manifest_cache [
    | none ↦ none
    | some c ↦ elim (proxy_and_cache_manifest key b w c) [
      | none ↦ none
      | some (c', w') ↦ some (record s { manifest_cache = some c' }, w')
    ]
  ]

  -- The blob cache after a reply that is offered to it.
  unfoldable pub keep_blob : ℕ → Request → Bytes → Reply → Option store.State → Option store.State
  keep_blob later r url b c = elim (blob_redirect_cache_key c r url) [
    | none ↦ c
    | some key ↦ (BlobCache.set store dates later key b.status b.header c).0
  ]

  -- A reply that is not offered to the manifest cache.
  unfoldable pub pass :
      ℕ
      → Request
      → Bytes
      → Reply
      → Writer
      → Redirect deps store
      → Option (Redirect deps store × Writer)
  pass later r url b w s =
      let kept = keep_blob later r url b s.blob_cache in
      elim (pass_body (split b'/' r.path) b w) [
        | none ↦ none
        | some w' ↦ some (record s { blob_cache = kept }, w')
      ]

  abbrev pub is_list : Redirect deps store → Request → Bool
  is_list s r = not (is_nil s.repo) && contains r.path (codes "/tags/list")

  -- The handler past the headers of the reply.
  unfoldable pub finish :
      ℕ
      → Request
      → Bytes
      → Reply
      → Writer
      → Redirect deps store
      → Option (Redirect deps store × Writer)
  finish later r url b w s =
      if is_list s r
      then some (s, serve_list world s.repo b w)
      else if bytes_eq r.method (codes "GET") && b.status == 200
      then (elim (manifest_cache_key s.manifest_cache r url) [
        | none ↦ pass later r url b w s
        | some key ↦ keep_manifest key b w s
      ])
      else pass later r url b w s

  -- The writer when the reply's body comes: with the headers of the reply.
  abbrev pub opened : Redirect deps store → Request → Header → Header → Writer
  opened s r header src = record new_writer {
    header = add_headers s.repo s.prefix r.host src header;
  }

  unfoldable pub forward :
      ℕ
      → Request
      → Bytes
      → Outgoing
      → List Outgoing
      → Redirect deps store
      → Option (Result deps store)
  forward later r url out asked s =
      let header = Header.set [] (codes "X-Redirected") (world.url_text out.url) in
      elim (world.proxy_client out) [
        | failed f ↦ some (record {
          server = s;
          writer = error f.text (backend_error_status f) (record new_writer { header = header });
          asked = asked ++ out ∷ [];
        })
        | answered b ↦ elim (finish later r url b (opened s r header b.header) s) [
          | none ↦ none
          | some (s', w) ↦ some (record { server = s'; writer = w; asked = asked ++ out ∷ [] })
        ]
      ]

  -- The request with the token, or the reply where there is none.
  unfoldable pub with_token :
      ℕ
      → Request
      → Bytes
      → Outgoing
      → Redirect deps store × Token × List Outgoing
      → Option (Result deps store)
  with_token later r url out (s, token_is t, asked) =
      let header = Header.set out.header (codes "Authorization") (codes "Bearer " ++ t) in
      forward later r url (record out { header = header }) asked s
  with_token later r url out (s, status_is code, asked) = some (record {
    server = s;
    writer = error (itoa code ++ b' ' ∷ world.status_text code) code new_writer;
    asked = asked;
  })
  with_token later r url out (s, fails_with f, asked) = some (record {
    server = s;
    writer = error f.text (backend_error_status f) new_writer;
    asked = asked;
  })
  with_token later r url out (s, panics, asked) = none

  unfoldable pub authorize :
      Course → ℕ → Request → Bytes → Outgoing → Redirect deps store → Option (Result deps store)
  authorize course later r url out s =
      if is_nil (Header.get out.header (codes "Authorization"))
      then with_token later r url out (get_token deps store world course r s)
      else forward later r url out [] s

  unfoldable pub ask :
      Course
      → ℕ
      → Request
      → Bytes
      → Bytes ⊎ Outgoing
      → Redirect deps store
      → Option (Result deps store)
  ask course later r url (inl text) s =
      some (record { server = s; writer = error text 500 new_writer; asked = [] })
  ask course later r url (inr out) s = elim (allow_request deps course.now r s.rate_limiter) [
    | none ↦ none
    | some (limiter, false) ↦ some (refused deps store world (record s { rate_limiter = limiter }))
    | some (limiter, true) ↦ authorize course later r url out (record s { rate_limiter = limiter })
  ]

  -- The handler past the manifest cache.
  unfoldable pub past_manifest :
      Course → ℕ → Request → Bytes → Redirect deps store → Option (Result deps store)
  past_manifest course later r url s = elim (cached_blob course.now r url s.blob_cache) [
    | some entry ↦ some (record {
      server = s;
      writer = serve_cached_blob_redirect url entry new_writer;
      asked = [];
    })
    | none ↦ ask course later r url (new_backend_request world r.method url r.header) s
  ]

  unfoldable pub proxy_url :
      Course → ℕ → Request → Bytes → Redirect deps store → Option (Result deps store)
  proxy_url course later r url s = elim (cached_manifest r url s.manifest_cache).1 [
    | some entry ↦ some (record {
      server = record s { manifest_cache = (cached_manifest r url s.manifest_cache).0 };
      writer = serve_cached_manifest r url entry new_writer;
      asked = [];
    })
    | none ↦
        past_manifest course later r url
          (record s { manifest_cache = (cached_manifest r url s.manifest_cache).0 })
  ]

  unfoldable pub proxy : Course → ℕ → Request → Redirect deps store → Option (Result deps store)
  proxy course later r s = elim (trim_path s.prefix r.host r.path) [
    | none ↦ some (record { server = s; writer = prefix_required; asked = [] })
    | some path ↦ proxy_url course later r (url_of deps store s r path) s
  ]
