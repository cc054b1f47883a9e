-- ===== src/Manifests/Matching.antt =====
-- Conditional requests for manifests.
use registry_redirect.Prelude.{
  ◌≡◌, ◌≢◌, refl, Bool, true, ◌||◌, List, [], ◌∷◌, ◌++◌, Bytes, codes, arith, some, ◌⊎◌, inl, inr,
}
use registry_redirect.Header
use registry_redirect.Header.{Header}
use registry_redirect.Http.{new_writer, copy_headers, write_header}
use registry_redirect.ManifestCache.{Entry}
use registry_redirect.Manifests.{
  has_text, etag_keys, digest_keys, match_keys, is_match, any_match, if_none_match_matches,
  serve_cached_manifest,
}
use registry_redirect.Request.{Request}
use registry_redirect.Strings.{trim_space}
use registry_redirect.Strings.SplitJoin.{IsFree, split_free}

-- An entity tag on its own in `If-None-Match`: no list, and no blanks around it.
pub record IsTag (value : Bytes) : Type 0 where
  pub some_text : value ≢ []
  pub single : IsFree b',' value
  pub trimmed : trim_space value ≡ value

if_none_match_matches_single :
    (value : Bytes) (header : Header)
    → IsTag value
    → if_none_match_matches value header ≡ is_match (match_keys header) value
unfolding if_none_match_matches any_match
if_none_match_matches_single [] header h = absurd (h.some_text refl)
if_none_match_matches_single (b ∷ value) header h =
    let parts = split_free b',' (b ∷ value) h.single in
    let trimmed = h.trimmed in rw (parts, any_match) (ground (arith, trimmed))

has_text-append :
    (l m : List Bytes) (s : Bytes) → has_text (l ++ m) s ≡ (has_text l s || has_text m s)
has_text-append [] m s = refl
has_text-append (t ∷ l) m s = ground (arith, has_text-append l m s)

has_text-etag_keys : (value : Bytes) → value ≢ [] → has_text (etag_keys value) value ≡ true
has_text-etag_keys [] h = absurd (h refl)
has_text-etag_keys (b ∷ value) h = ground arith

has_text-digest_keys : (value : Bytes) → value ≢ [] → has_text (digest_keys value) value ≡ true
has_text-digest_keys [] h = absurd (h refl)
has_text-digest_keys (b ∷ value) h = ground arith

-- The value names what the header describes: it is the entity tag or the digest.
abbrev pub IsNamed : Bytes → Header → Type 0
IsNamed value header =
    (Header.get header (codes "Etag") ≡ value)
    ⊎ (Header.get header (codes "Docker-Content-Digest") ≡ value)

or_true : (a : Bool) → (a || true) ≡ true
or_true a = ground arith

has_text-match_keys :
    (value : Bytes) (header : Header)
    → value ≢ []
    → IsNamed value header
    → has_text (match_keys header) value ≡ true
unfolding match_keys
has_text-match_keys value header h (inl tag) =
    let keys =
      has_text-append (etag_keys (Header.get header (codes "Etag")))
        (digest_keys (Header.get header (codes "Docker-Content-Digest"))) value in
    rw keys (rw tag (rw (has_text-etag_keys value h) refl))
has_text-match_keys value header h (inr digest) =
    let keys =
      has_text-append (etag_keys (Header.get header (codes "Etag")))
        (digest_keys (Header.get header (codes "Docker-Content-Digest"))) value in
    rw keys (
      rw digest (
        rw (has_text-digest_keys value h)
          (or_true (has_text (etag_keys (Header.get header (codes "Etag"))) value))))

-- A client that sends the entity tag or the digest of a cached manifest in `If-None-Match`, as a single
-- value without blanks around it, gets the status 304 and no body.
pub serve_cached_manifest_unchanged :
    (value : Bytes) (q : Request) (url : Bytes) (e : Entry)
    → IsTag value
    → Header.get q.header (codes "If-None-Match") ≡ value
    → IsNamed value e.header
    → (h : Header) × (serve_cached_manifest q url e new_writer
        ≡ record { header = h; sent = some (304, h); body = [] })
unfolding serve_cached_manifest write_header is_match
serve_cached_manifest_unchanged value q url e tag sent named =
    let found = has_text-match_keys value e.header tag.some_text named in
    let matches : if_none_match_matches value e.header ≡ true =
      ground (arith, if_none_match_matches_single value e.header tag) in
    let h =
      Header.del (Header.set (copy_headers [] e.header) (codes "X-Redirected") url)
        (codes "Content-Length") in
    (h, rw (sent, serve_cached_manifest, matches) refl)
