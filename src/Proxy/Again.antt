-- ===== src/Proxy/Again.antt =====
-- A manifest that `proxy` has had from the registry serves other requests from the cache.
use registry_redirect.Prelude.{
  ℕ, ◌≤◌, ◌≡◌, refl, sym, ap, subst, ◌∙◌, true, false, Option, none, some, [], ◌∷◌, Bytes, codes,
  arith, length, Option-cases, inl, inr,
}
use registry_redirect.BlobCache.{Dates, Store}
use registry_redirect.Header
use registry_redirect.Http.{Writer, new_writer, Reply}
use registry_redirect.ManifestCache
use registry_redirect.ManifestCache.{Entry, entry_size}
use registry_redirect.ManifestCache.Linked.{IsValid}
use registry_redirect.ManifestCache.Refines.{get_lem}
use registry_redirect.Manifests.{
  manifest_cache_key, serve_cached_manifest, proxy_and_cache_manifest,
}
use registry_redirect.Manifests.Passing.{sent, proxy_and_cache_manifest_kept}
use registry_redirect.Paths.{bytes_eq}
use registry_redirect.Proxy.{
  trim_path, cached_manifest, keep_manifest, is_list, finish, proxy_url, url_of, proxy,
}
use registry_redirect.Proxy.Relaying.{IsReached, reached, reply_writer, page_request, proxy-reached}
use registry_redirect.RateLimiter.Deps.{Deps}
use registry_redirect.RateLimiter.State.{IpRateLimiter}
use registry_redirect.Redirect.{World, Redirect, Result}
use registry_redirect.Request.{Request}
use registry_redirect.Strings.{contains}
use registry_redirect.Tokens.{Course}

-- A look into a valid cache leaves its budget and a valid cache.
cached_manifest_lem :
    (r : Request) (url : Bytes) (c : ManifestCache.Cache)
    → IsValid c
    → (c' : ManifestCache.Cache) × ((cached_manifest r url (some c)).0 ≡ some c')
      × IsValid c'
      × (c'.max_bytes ≡ c.max_bytes)
unfolding cached_manifest ManifestCache.get
cached_manifest_lem r url c v = elim (Option-cases (manifest_cache_key (some c) r url)) [
  | inl other ↦ (c, rw (other, cached_manifest) refl, v, refl)
  | inr (key, own) ↦ (
    (ManifestCache.get key c).0,
    rw (own, cached_manifest) refl,
    (get_lem key c v).2,
    ground arith,
  )
]

cached_manifest-hit :
    (r : Request) (url key : Bytes) (c : ManifestCache.Cache) (e : Entry)
    → manifest_cache_key (some c) r url ≡ some key
    → (ManifestCache.get key c).1 ≡ some e
    → (cached_manifest r url (some c)).1 ≡ some e
unfolding cached_manifest
cached_manifest-hit r url key c e own hit = rw (own, cached_manifest) hit

key_same :
    (r q : Request) (url key : Bytes) (c c' : ManifestCache.Cache)
    → bytes_eq q.method (codes "GET") ≡ true
    → contains q.path (codes "/manifests/") ≡ true
    → Header.get q.header (codes "Accept") ≡ Header.get r.header (codes "Accept")
    → manifest_cache_key (some c) r url ≡ some key
    → manifest_cache_key (some c') q url ≡ some key
unfolding manifest_cache_key
key_same r q url key c c' get path accept own = ground arith

module _ (deps : Deps) (store : Store) (dates : Dates) where
  -- A GET for the same page, with or without an authorization.
  pub record IsAgain (s : Redirect deps store) (r : Request) (path : Bytes) (q : Request)
      : Type 0 where
    pub page : Bytes
    pub trimmed : trim_path s.prefix q.host q.path ≡ some page
    pub same : url_of deps store s q page ≡ url_of deps store s r path
    pub get : bytes_eq q.method (codes "GET") ≡ true
    pub manifest : contains q.path (codes "/manifests/") ≡ true
    pub accept : Header.get q.header (codes "Accept") ≡ Header.get r.header (codes "Accept")
    pub plain : Header.get q.header (codes "If-None-Match") ≡ []

  finish_keeps :
      (world : World) (later : ℕ) (r : Request) (url key : Bytes) (b : Reply) (w : Writer)
      (s : Redirect deps store) (c c' : ManifestCache.Cache) (w' : Writer)
      → is_list deps store world dates s r ≡ false
      → bytes_eq r.method (codes "GET") ≡ true
      → b.status ≡ 200
      → s.manifest_cache ≡ some c
      → manifest_cache_key (some c) r url ≡ some key
      → proxy_and_cache_manifest key b w c ≡ some (c', w')
      → finish deps store world dates later r url b w s
        ≡ some (record s { manifest_cache = some c' }, w')
  unfolding finish keep_manifest
  finish_keeps world later r url key b w s c c' w' page get ok there own kept =
      let keyed : manifest_cache_key s.manifest_cache r url ≡ some key = rw there own in
      let done : keep_manifest deps store world dates key b w s
          ≡ some (record s { manifest_cache = some c' }, w') =
        rw (there, keep_manifest, kept) refl in
      rw (page, get, ok, keyed, finish) done

  proxy_hit :
      (world : World) (course : Course) (later : ℕ) (q : Request) (s : Redirect deps store)
      (page : Bytes) (e : Entry)
      → trim_path s.prefix q.host q.path ≡ some page
      → (cached_manifest q (url_of deps store s q page) s.manifest_cache).1 ≡ some e
      → (res : Result deps store) × (proxy deps store world dates course later q s ≡ some res)
        × (res.writer ≡ serve_cached_manifest q (url_of deps store s q page) e new_writer)
        × (res.asked ≡ [])
        × (res.server.rate_limiter ≡ s.rate_limiter)
  unfolding proxy proxy_url
  proxy_hit world course later q s page e trimmed hit = (
    record {
      server = record s {
        manifest_cache = (cached_manifest q (url_of deps store s q page) s.manifest_cache).0;
      };
      writer = serve_cached_manifest q (url_of deps store s q page) e new_writer;
      asked = [];
    },
    rw (trimmed, proxy, hit, proxy_url) refl,
    refl,
    refl,
    refl,
  )

  -- Where a GET for a manifest with the client's own authorization reaches the registry, the status is
  -- 200 and the body does not fail, on a valid manifest cache whose budget the reply fits: the client
  -- gets the status and the body, and then so does every client that asks for the same page with the
  -- same `Accept` and without `If-None-Match`, with or without an authorization, whatever the registry
  -- says by then, without a request to it and without a charge at the limiter.
  pub proxy_reuses :
      (world : World) (course : Course) (later : ℕ) (r : Request) (s : Redirect deps store)
      (path key : Bytes) (limiter : Option (IpRateLimiter deps)) (b : Reply)
      (c : ManifestCache.Cache)
      → IsReached deps store world dates course.now r s path limiter b
      → is_list deps store world dates s r ≡ false
      → bytes_eq r.method (codes "GET") ≡ true
      → b.status ≡ 200
      → s.manifest_cache ≡ some c
      → IsValid c
      → manifest_cache_key (some c) r (url_of deps store s r path) ≡ some key
      → b.body.failure ≡ none
      → length b.body.content ≤ c.max_bytes
      → entry_size b.header b.body.content ≤ c.max_bytes
      → (res : Result deps store) × (proxy deps store world dates course later r s ≡ some res)
        × (res.writer ≡ sent b (reply_writer deps store world dates s r path b))
        × ((world' : World) (course' : Course) (later' : ℕ) (q : Request)
            → IsAgain s r path q
            → (res' : Result deps store) × (proxy deps store world' dates course' later' q
                  res.server
                ≡ some res')
              × ((h : Header.Header) × (res'.writer
                    ≡ record { header = h; sent = some (200, h); body = b.body.content }))
              × (res'.asked ≡ [])
              × (res'.server.rate_limiter ≡ limiter))
  proxy_reuses world course later r s path key limiter b c h page get ok cached v own fine small
        fits =
      let url = url_of deps store s r path in
      let (c1, looked, v1, budget) = cached_manifest_lem r url c v in
      let there = ap (λ x. (cached_manifest r url x).0) cached ∙ looked in
      let own1 : manifest_cache_key (some c1) r url ≡ some key = unfold manifest_cache_key in own in
      let w = reply_writer deps store world dates s r path b in
      let (c2, kept, (e, hit, serves)) =
        proxy_and_cache_manifest_kept key b w c1 v1 fine refl (omega (arith, budget, small))
          (omega (arith, budget, fits)) in
      let after : Redirect deps store = record s {
        manifest_cache = some c2;
        rate_limiter = limiter;
      } in
      let ended =
        finish_keeps world later r url key b w (reached deps store world dates s r path limiter) c1
          c2 (sent b w) page get ok there own1 kept in
      (
        record {
          server = after;
          writer = sent b w;
          asked = page_request deps store world dates s r path ∷ [];
        },
        proxy-reached deps store world dates course later r s after path limiter b (sent b w) h
            ended,
        refl,
        λ world' course' later' q a.
            let hit_q : (cached_manifest q url (some c2)).1 ≡ some e =
              cached_manifest-hit q url key c2 e
                (key_same r q url key c c2 a.get a.manifest a.accept own) hit in
            let at_q = subst (λ x. (cached_manifest q x (some c2)).1 ≡ some e) (sym a.same) hit_q in
            let (header, served) =
              serves q (url_of deps store s q a.page) (ground (arith, a.get)) a.plain in
            let (res', done, writer, silent, limits) =
              proxy_hit world' course' later' q after a.page e a.trimmed at_q in
            (
              res',
              done,
              (
                header,
                writer
                    ∙ served
                    ∙ ap
                        (λ n. record {
                          header = header;
                          sent = some (n, header);
                          body = b.body.content;
                        })
                        ok,
              ),
              silent,
              limits,
            ),
      )
