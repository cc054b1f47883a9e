-- ===== src/Manifests.antt =====
-- How pkg/redirect/redirect.go serves manifests: the key of a manifest in the cache, the reply from the
-- cache with its conditional requests, and the reply of the registry on its way through the cache.
pub mod Keeping
pub mod Passing
pub mod Matching
mod Tests
use registry_redirect.Prelude.{
  ℕ, Bool, true, false, ◌||◌, Option, none, some, List, [], ◌∷◌, ◌++◌, Bytes, codes, if◌then◌else◌,
  length,
}
use registry_redirect.Decimal.{itoa}
use registry_redirect.Header
use registry_redirect.Header.{Header}
use registry_redirect.Http.{
  Writer, write_header, write, error, copy_headers, Read, read_failed, read_some,
  read_body_with_limit, Reply,
}
use registry_redirect.ManifestCache
use registry_redirect.ManifestCache.{Cache, Entry, max_body_bytes}
use registry_redirect.Paths.{bytes_eq}
use registry_redirect.Request.{Request}
use registry_redirect.Strings.{split, trim_space, trim_prefix, contains}

-- `manifestCacheKey`, with the cache that may be nil.
unfoldable pub manifest_cache_key : Option Cache → Request → Bytes → Option Bytes
manifest_cache_key none r upstream_url = none
manifest_cache_key (some c) r upstream_url =
    if bytes_eq r.method (codes "GET") || bytes_eq r.method (codes "HEAD")
    then if contains r.path (codes "/manifests/")
      then some (upstream_url ++ b'\n' ∷ codes "accept:" ++ Header.get r.header (codes "Accept"))
      else none
    else none

abbrev pub has_text : List Bytes → Bytes → Bool
has_text [] s = false
has_text (t ∷ l) s = bytes_eq s t || has_text l s

-- The keys of the map `matches`: the entity tag, also without `W/`, and the digest, also in quotes.
abbrev pub etag_keys : Bytes → List Bytes
etag_keys [] = []
etag_keys (b ∷ etag) = (b ∷ etag) ∷ trim_prefix (b ∷ etag) (codes "W/") ∷ []

abbrev pub digest_keys : Bytes → List Bytes
digest_keys [] = []
digest_keys (b ∷ digest) = (b ∷ digest) ∷ (codes "\"" ++ (b ∷ digest) ++ codes "\"") ∷ []

unfoldable pub match_keys : Header → List Bytes
match_keys header =
    etag_keys (Header.get header (codes "Etag"))
    ++ digest_keys (Header.get header (codes "Docker-Content-Digest"))

-- The test of the loop over the candidates.
unfoldable pub is_match : List Bytes → Bytes → Bool
is_match keys candidate =
    bytes_eq candidate (codes "*")
    || has_text keys candidate
    || has_text keys (trim_prefix candidate (codes "W/"))

unfoldable pub any_match : List Bytes → List Bytes → Bool
any_match keys [] = false
any_match keys (candidate ∷ candidates) =
    is_match keys (trim_space candidate) || any_match keys candidates

unfoldable pub if_none_match_matches : Bytes → Header → Bool
if_none_match_matches [] header = false
if_none_match_matches (b ∷ value) header = any_match (match_keys header) (split b',' (b ∷ value))

-- `if w.Header().Get("Content-Length") == "" { … }`.
unfoldable pub with_length : ℕ → Header → Header
with_length n header =
    if bytes_eq (Header.get header (codes "Content-Length")) []
    then Header.set header (codes "Content-Length") (itoa n)
    else header

unfoldable pub serve_cached_manifest : Request → Bytes → Entry → Writer → Writer
serve_cached_manifest r upstream_url entry w =
    let header =
      Header.set (copy_headers w.header entry.header) (codes "X-Redirected") upstream_url in
    let full =
      write_header entry.status (record w { header = with_length (length entry.body) header }) in
    if if_none_match_matches (Header.get r.header (codes "If-None-Match")) entry.header
    then write_header 304 (record w { header = Header.del header (codes "Content-Length") })
    else if bytes_eq r.method (codes "HEAD")
    then full
    else write entry.body full

-- `proxyAndCacheManifest` past its read; `none` only where the loop of `set` does not end.
unfoldable pub after_read : Bytes → Reply → Read → Writer → Cache → Option (Cache × Writer)
after_read key reply (read_failed f) w c = some (c, error f.text 500 w)
after_read key reply (read_some out true rest) w c =
    some (c, write rest.content (write out (write_header reply.status w)))
after_read key reply (read_some out false rest) w c =
    elim (ManifestCache.set key reply.status reply.header out c) [
      | none ↦ none
      | some (c', _) ↦ some (c', write out (write_header reply.status w))
    ]

unfoldable pub proxy_and_cache_manifest : Bytes → Reply → Writer → Cache → Option (Cache × Writer)
proxy_and_cache_manifest key reply w c =
    after_read key reply (read_body_with_limit reply.body (max_body_bytes c)) w c
