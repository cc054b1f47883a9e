-- ===== src/Proxy/Relaying.antt =====
-- What a client of `proxy` gets of the registry's answer.
use registry_redirect.Prelude.{
  ℕ, ◌≤◌, ◌≡◌, refl, ap, ◌∙◌, Bool, true, false, Option, none, some, [], ◌∷◌, ◌&&◌, ◌==◌, ◌-◌,
  Bytes, codes, arith, length, if◌then◌else◌,
}
use registry_redirect.BlobCache.{Dates, Store}
use registry_redirect.Header
use registry_redirect.Header.{Header, is_method}
use registry_redirect.Http.{Writer, new_writer, write, write_header, Outgoing, Reply, answered}
use registry_redirect.ManifestCache
use registry_redirect.Manifests.{manifest_cache_key}
use registry_redirect.Paths.{bytes_eq, nth}
use registry_redirect.Proxy.{
  trim_path, add_headers, cached_manifest, cached_blob, pass_body, keep_blob, pass, is_list, finish,
  forward, authorize, ask, past_manifest, proxy_url, url_of, proxy,
}
use registry_redirect.RateLimiter.Deps.{Deps}
use registry_redirect.RateLimiter.State.{IpRateLimiter, allow_request}
use registry_redirect.Redirect.{World, Redirect, new_backend_request}
use registry_redirect.Request.{Request}
use registry_redirect.Strings.{split}
use registry_redirect.Tokens.{Course, is_nil}

abbrev is_some : Option Bytes → Bool
is_some none = false
is_some (some k) = true

module _ (deps : Deps) (store : Store) (world : World) (dates : Dates) where
  -- The request that goes out for a page, with the client's own authorization.
  abbrev pub page_request : Redirect deps store → Request → Bytes → Outgoing
  page_request s r path = record {
    method = r.method;
    url = url_of deps store s r path;
    header = r.header;
  }

  -- A request with an authorization that no cache serves, that the limiter lets through, and that the
  -- registry answers.
  pub record IsReached (now : ℕ) (r : Request) (s : Redirect deps store) (path : Bytes)
      (limiter : Option (IpRateLimiter deps)) (b : Reply) : Type 0 where
    pub trimmed : trim_path s.prefix r.host r.path ≡ some path
    pub no_manifest : (cached_manifest r (url_of deps store s r path) s.manifest_cache).1 ≡ none
    pub no_blob :
        cached_blob deps store world dates now r (url_of deps store s r path) s.blob_cache ≡ none
    pub method : is_method r.method ≡ true
    pub valid : world.url_error (url_of deps store s r path) ≡ none
    pub allowed : allow_request deps now r s.rate_limiter ≡ some (limiter, true)
    pub own : is_nil (Header.get r.header (codes "Authorization")) ≡ false
    pub got : world.proxy_client (page_request s r path) ≡ answered b

  -- The state in which the answer comes.
  abbrev pub reached :
      Redirect deps store → Request → Bytes → Option (IpRateLimiter deps) → Redirect deps store
  reached s r path limiter = record s {
    manifest_cache = (cached_manifest r (url_of deps store s r path) s.manifest_cache).0;
    rate_limiter = limiter;
  }

  -- The header of the reply.
  abbrev pub reply_header : Redirect deps store → Request → Bytes → Header → Header
  reply_header s r path src =
      add_headers s.repo s.prefix r.host src
        (Header.set [] (codes "X-Redirected") (world.url_text (url_of deps store s r path)))

  -- The writer when the body of the answer comes.
  abbrev pub reply_writer : Redirect deps store → Request → Bytes → Reply → Writer
  reply_writer s r path b = record new_writer { header = reply_header s r path b.header }

  pub proxy-reached :
      (course : Course) (later : ℕ) (r : Request) (s s' : Redirect deps store) (path : Bytes)
      (limiter : Option (IpRateLimiter deps)) (b : Reply) (w : Writer)
      → IsReached course.now r s path limiter b
      → finish deps store world dates later r
          (url_of deps store s r path)
          b
          (reply_writer s r path b)
          (reached s r path limiter)
        ≡ some (s', w)
      → proxy deps store world dates course later r s
        ≡ some (record { server = s'; writer = w; asked = page_request s r path ∷ [] })
  unfolding proxy proxy_url past_manifest ask authorize forward new_backend_request
  proxy-reached course later r s s' path limiter b w h done =
      rw
        (
          h.trimmed, proxy, h.no_manifest, proxy_url, h.no_blob, past_manifest, h.method,
          new_backend_request, h.valid, ask, h.allowed, h.own, authorize, h.got, forward, done,
        )
        refl

  -- Whether an answer is offered to the manifest cache.
  abbrev pub is_offered : Redirect deps store → Request → Bytes → Reply → Bool
  is_offered s r path b =
      bytes_eq r.method (codes "GET")
      && b.status == 200
      && is_some (manifest_cache_key s.manifest_cache r (url_of deps store s r path))

  finish_passes :
      (later : ℕ) (r : Request) (url : Bytes) (b : Reply) (w : Writer) (s : Redirect deps store)
      → is_list deps store world dates s r ≡ false
      → (bytes_eq r.method (codes "GET")
          && b.status == 200
          && is_some (manifest_cache_key s.manifest_cache r url))
        ≡ false
      → finish deps store world dates later r url b w s
        ≡ pass deps store world dates later r url b w s
  unfolding finish
  finish_passes later r url b w s page other = ground arith

  pass_lem :
      (later : ℕ) (r : Request) (url : Bytes) (b : Reply) (header : Header)
      (s : Redirect deps store)
      → 2 ≤ length (split b'/' r.path)
      → pass deps store world dates later r url b (record new_writer { header = header }) s
        ≡ some (
          record s { blob_cache = keep_blob deps store world dates later r url b s.blob_cache },
          record {
            header = header;
            sent = some (b.status, header);
            body =
                if bytes_eq
                  (nth (length (split b'/' r.path) - 2) (split b'/' r.path))
                  (codes "blobs")
                then []
                else b.body.content;
          },
        )
  unfolding pass pass_body write write_header
  pass_lem later r url b header s long = ground arith

  -- The key of a manifest does not depend on what its cache holds.
  key_reached :
      (r : Request) (url : Bytes) (c : Option ManifestCache.Cache)
      → manifest_cache_key (cached_manifest r url c).0 r url ≡ manifest_cache_key c r url
  unfolding manifest_cache_key cached_manifest
  key_reached r url none = refl
  key_reached r url (some c) = ground arith

  -- Where a client's own authorization takes a request past the caches and the limiter to the registry,
  -- and the answer is not a list of tags whose name is rewritten, nor offered to the manifest cache, the
  -- client gets the status and the rewritten header of the answer, and its body unless it asks for a
  -- blob. One request goes out, and the blob cache is offered the answer.
  pub proxy_relays :
      (course : Course) (later : ℕ) (r : Request) (s : Redirect deps store) (path : Bytes)
      (limiter : Option (IpRateLimiter deps)) (b : Reply)
      → IsReached course.now r s path limiter b
      → is_list deps store world dates s r ≡ false
      → is_offered s r path b ≡ false
      → 2 ≤ length (split b'/' r.path)
      → proxy deps store world dates course later r s
        ≡ some (record {
          server = record (reached s r path limiter) {
            blob_cache =
                keep_blob deps store world dates later r
                  (url_of deps store s r path)
                  b
                  s.blob_cache;
          };
          writer = record {
            header = reply_header s r path b.header;
            sent = some (b.status, reply_header s r path b.header);
            body =
                if bytes_eq
                  (nth (length (split b'/' r.path) - 2) (split b'/' r.path))
                  (codes "blobs")
                then []
                else b.body.content;
          };
          asked = page_request s r path ∷ [];
        })
  proxy_relays course later r s path limiter b h page other long =
      let url = url_of deps store s r path in
      let same = key_reached r url s.manifest_cache in
      proxy-reached course later r s _ path limiter b _ h (
        finish_passes later r url b (reply_writer s r path b) (reached s r path limiter) page
          (ap (λ k. bytes_eq r.method (codes "GET") && b.status == 200 && is_some k) same ∙ other)
        ∙ pass_lem later r url b (reply_header s r path b.header) (reached s r path limiter) long)
