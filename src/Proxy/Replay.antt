-- ===== src/Proxy/Replay.antt =====
-- A blob redirect that `proxy` has had from the registry serves other requests from the cache.
mod Tests
use registry_redirect.Prelude.{
  ℕ, ◌+◌, ◌<◌, ◌≤◌, ◌≡◌, ◌≢◌, ◌⊎◌, inl, inr, true, false, some, ◌∷◌, ◌++◌, Bytes, codes,
}
use registry_redirect.BlobCache
use registry_redirect.BlobCache.{Dates, Store, Entry, ttl}
use registry_redirect.Header
use registry_redirect.Http.{Writer}
use registry_redirect.Paths.{bytes_eq}
use registry_redirect.Proxy.{trim_path, url_of}
use registry_redirect.ManifestCache
use registry_redirect.RateLimiter.Deps.{Deps}
use registry_redirect.Redirect.{Redirect}
use registry_redirect.Request.{Request}
use registry_redirect.Strings.{contains}

-- The key under which a blob redirect is kept.
abbrev pub blob_key : Bytes → Bytes
blob_key url = codes "GET" ++ b'\n' ∷ url

-- The store takes an entry under a key in a state, whatever it is, and has it until its time has come.
abbrev pub Keeps : (store : Store) → Bytes → store.State → Type 0
Keeps store key s =
    (now t size ttl : ℕ) (entry : Entry)
    → now ≤ t
    → t < now + ttl
    → store.get t key (store.set_with_ttl now key entry size ttl s).0 ≡ some entry

module _ (deps : Deps) (store : Store) (dates : Dates) where
  -- A GET for the same blob, with or without an authorization.
  pub record IsSameBlob (s : Redirect deps store) (r : Request) (path : Bytes) (q : Request)
      : Type 0 where
    pub page : Bytes
    pub trimmed : trim_path s.prefix q.host q.path ≡ some page
    pub same : url_of deps store s q page ≡ url_of deps store s r path
    pub get : bytes_eq q.method (codes "GET") ≡ true
    pub blob : contains q.path (codes "/blobs/") ≡ true
    pub other : contains q.path (codes "/manifests/") ≡ false
