-- ===== src/Manifests/Tests.antt =====
-- Runs of the manifest handlers, and their theorems there.
use registry_redirect.Prelude.{
  ◌≡◌, inl, refl, true, false, none, some, [], ◌∷◌, Bytes, Bytes-discrete, codes, arith,
}
use registry_redirect.GoMap.{lookup, insert, erase}
use registry_redirect.Header
use registry_redirect.Header.{Header, add_header_sizes, add_value_sizes}
use registry_redirect.Http.{new_writer, Reply}
use registry_redirect.ManifestCache.{Cache, Entry, init}
use registry_redirect.ManifestCache.Linked.{IsValid}
use registry_redirect.ManifestCache.Refines.{init-IsValid}
use registry_redirect.Manifests.{
  manifest_cache_key, match_keys, is_match, any_match, if_none_match_matches, serve_cached_manifest,
  proxy_and_cache_manifest,
}
use registry_redirect.Manifests.Matching.{IsTag, serve_cached_manifest_unchanged}
use registry_redirect.Manifests.Passing.{IsOffered, sent, proxy_and_cache_manifest_passes}
use registry_redirect.Paths.{bytes_eq}
use registry_redirect.Request.{Request}
use registry_redirect.Strings.{split, trim_space, after_prefix, trim_prefix, has_prefix, contains}

program : Unit {0}
unfolding lookup insert erase Bytes-discrete Header.get match_keys is_match any_match
    if_none_match_matches split trim_space after_prefix trim_prefix has_prefix contains
    manifest_cache_key
program = tt

abbrev manifest : Reply
manifest = record {
  status = 200;
  header = (codes "Etag", codes "W/\"x\"" ∷ []) ∷ [];
  body = record { content = codes "{}"; failure = none };
}

abbrev client : Request
client = record {
  method = codes "GET";
  url = codes "/v2/a/manifests/b";
  path = codes "/v2/a/manifests/b";
  query = [];
  host = codes "a.example";
  header = (codes "Accept", codes "text" ∷ []) ∷ [];
  remote_addr = codes "10.0.0.1:80";
}

key_test :
    manifest_cache_key (some (init 9)) client (codes "https://ghcr.io/v2/a/manifests/b")
    ≡ some (codes "https://ghcr.io/v2/a/manifests/b\naccept:text")
unfolding program
key_test = refl

-- Weak tags match strong ones, in a list as well.
matches_tests :
    (if_none_match_matches (codes "\"y\", \"x\"") manifest.header ≡ true)
    × (if_none_match_matches (codes "\"y\"") manifest.header ≡ false)
    × (if_none_match_matches (codes " * ") manifest.header ≡ true)
    × (if_none_match_matches [] manifest.header ≡ false)
unfolding program
matches_tests = (refl, refl, refl, refl)

empty-IsValid : IsValid (init 20)
empty-IsValid = (init-IsValid 20).0

proxy_and_cache_manifest_passes_example :
    (c' : Cache) × (proxy_and_cache_manifest (codes "k") manifest new_writer (init 20)
      ≡ some (c', sent manifest new_writer))
    × IsOffered (codes "k") manifest (init 20) c'
proxy_and_cache_manifest_passes_example =
    proxy_and_cache_manifest_passes (codes "k") manifest new_writer (init 20) empty-IsValid refl
      refl

not_head : bytes_eq client.method (codes "HEAD") ≡ false
unfolding program
not_head = refl

unconditional : Header.get client.header (codes "If-None-Match") ≡ []
unfolding program
unconditional = refl

abbrev tag : Bytes
tag = codes "W/\"x\""

abbrev conditional : Request
conditional = record client { header = (codes "If-None-Match", tag ∷ []) ∷ [] }

tag-IsTag : IsTag tag
unfolding program
tag-IsTag = record {
  some_text = λ h. cc;
  single = (omega arith, (omega arith, (omega arith, (omega arith, (omega arith, tt)))));
  trimmed = refl;
}

abbrev entry : Entry
entry = record {
  key = codes "k";
  status = 200;
  header = manifest.header;
  body = codes "{}";
  size = 15;
}

sends_tag : Header.get conditional.header (codes "If-None-Match") ≡ tag
unfolding program
sends_tag = refl

has_tag : Header.get entry.header (codes "Etag") ≡ tag
unfolding program
has_tag = refl

serve_cached_manifest_unchanged_example :
    (h : Header) × (serve_cached_manifest conditional (codes "u") entry new_writer
      ≡ record { header = h; sent = some (304, h); body = [] })
serve_cached_manifest_unchanged_example =
    serve_cached_manifest_unchanged tag conditional (codes "u") entry tag-IsTag sends_tag
      (inl has_tag)
