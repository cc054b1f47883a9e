-- ===== src/Proxy/Replay/Tests.antt =====
-- A blob redirect that is kept, over a store that keeps its last entry.
use registry_redirect.Prelude.{refl, none, some, [], ◌∷◌, Bytes, Bytes-discrete, codes}
use registry_redirect.BlobCache.{is_cacheable_status, url_expiry}
use registry_redirect.BlobCache
use registry_redirect.GoMap.{lookup, insert}
use registry_redirect.Header
use registry_redirect.Header.{is_method}
use registry_redirect.Http.{Reply}
use registry_redirect.ManifestCache
use registry_redirect.Manifests.{manifest_cache_key}
use registry_redirect.Proxy.{
  upstream_base, trim_path, with_query, cached_manifest, blob_redirect_cache_key, cached_blob,
}
use registry_redirect.Proxy.Replay.{IsSameBlob}
use registry_redirect.RateLimiter.State.{allow_request}
use registry_redirect.Redirect.{World, Redirect}
use registry_redirect.Request.{Request}
use registry_redirect.Samples.{trivial, answering, minutes, last}
use registry_redirect.Strings.{split, after_prefix, has_prefix, trim_prefix, contains}
use registry_redirect.Tokens.{Course, stays}
use registry_redirect.Query

program : Unit {0}
unfolding lookup insert Bytes-discrete is_cacheable_status url_expiry Header.get Header.values
    is_method manifest_cache_key ManifestCache.init ManifestCache.get upstream_base trim_path
    with_query cached_manifest blob_redirect_cache_key cached_blob BlobCache.get allow_request split
    after_prefix has_prefix trim_prefix contains Query.encode
program = tt

-- A link that is good for four minutes.
abbrev page : Reply
page = record {
  status = 307;
  header = (codes "Location", codes "abcd" ∷ []) ∷ [];
  body = record { content = []; failure = none };
}

abbrev world : World
world = answering page

abbrev server : Redirect trivial last
server = record {
  host = codes "ghcr.io";
  repo = codes "dagger";
  prefix = codes "p";
  rate_limiter = none;
  manifest_cache = some (ManifestCache.init 1000);
  blob_cache = some none;
  token_cache = none;
  v2_cache = none;
}

abbrev client : Request
client = record {
  method = codes "GET";
  url = codes "/v2/p/engine/blobs/b";
  path = codes "/v2/p/engine/blobs/b";
  query = [];
  host = codes "a.example";
  header = (codes "Authorization", codes "Bearer t" ∷ []) ∷ [];
  remote_addr = codes "10.0.0.1:80";
}

abbrev course : Course
course = record { now = 5; later = 7; patience = stays; joined = none }

abbrev path : Bytes
path = codes "engine/blobs/b"

-- The client itself can ask again.
again : IsSameBlob trivial last minutes server client path client
unfolding program
again = record { page = path; trimmed = refl; same = refl; get = refl; blob = refl; other = refl }
