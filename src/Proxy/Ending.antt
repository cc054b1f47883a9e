-- ===== src/Proxy/Ending.antt =====
-- `proxy` past the reply of the registry comes to an end, and leaves a valid manifest cache, a blob
-- cache with fresh entries, and the token cache and the limiter as they were.
use registry_redirect.Prelude.{
  ℕ, ◌-◌, ◌≤◌, ◌≡◌, refl, Option, none, some, List, Bytes, codes, arith, inl, inr, Bool-cases,
  Option-cases, ◌&&◌, ◌==◌, length,
}
use registry_redirect.BlobCache.{Dates, Store}
use registry_redirect.BlobCache.Fresh.{IsStore, HoldsFresh, set-HoldsFresh}
use registry_redirect.Http.{Writer, write, write_header, Reply}
use registry_redirect.ManifestCache
use registry_redirect.ManifestCache.Linked.{IsValid}
use registry_redirect.ManifestCache.Refines.{get_lem}
use registry_redirect.Manifests.{manifest_cache_key}
use registry_redirect.Manifests.Keeping.{proxy_and_cache_manifest-IsValid}
use registry_redirect.Paths.{bytes_eq, nth}
use registry_redirect.Proxy.{
  cached_manifest, pass_body, blob_redirect_cache_key, keep_manifest, keep_blob, pass, is_list,
  serve_list, finish,
}
use registry_redirect.RateLimiter.Deps.{Deps}
use registry_redirect.Redirect.{World, Redirect}
use registry_redirect.Request.{Request}
use registry_redirect.Strings.{split}

-- A manifest cache, where there is one, is valid.
abbrev pub IsHeld : Option ManifestCache.Cache → Type 0
IsHeld none = Unit
IsHeld (some c) = IsValid c

pub cached_manifest-IsHeld :
    (r : Request) (url : Bytes) (c : Option ManifestCache.Cache)
    → IsHeld c
    → IsHeld (cached_manifest r url c).0
unfolding cached_manifest
cached_manifest-IsHeld r url none h = tt
cached_manifest-IsHeld r url (some c) h = elim (Option-cases (manifest_cache_key (some c) r url)) [
  | inl other ↦ rw (other, cached_manifest) h
  | inr (key, own) ↦ rw (own, cached_manifest) (get_lem key c h).2
]

pass_body-some :
    (parts : List Bytes) (b : Reply) (w : Writer)
    → 2 ≤ length parts
    → (w' : Writer) × (pass_body parts b w ≡ some w')
unfolding pass_body
pass_body-some parts b w h =
    elim (Bool-cases (bytes_eq (nth (length parts - 2) parts) (codes "blobs"))) [
      | inl blob ↦ (write_header b.status w, ground arith)
      | inr other ↦ (write b.body.content (write_header b.status w), ground arith)
    ]

module _ (deps : Deps) (store : Store) (dates : Dates) where
  -- What the end of a request leaves.
  pub record IsKept (s s' : Redirect deps store) : Type 0 where
    pub limiter : s'.rate_limiter ≡ s.rate_limiter
    pub tokens : s'.token_cache ≡ s.token_cache
    pub manifests : IsHeld s'.manifest_cache
    pub blobs : HoldsFresh store dates s'.blob_cache

module _ (deps : Deps) (store : Store) (world : World) (dates : Dates) (law : IsStore store) where
  keep_manifest-IsKept :
      (r : Request) (url key : Bytes) (b : Reply) (w : Writer) (s : Redirect deps store)
      → IsHeld s.manifest_cache
      → HoldsFresh store dates s.blob_cache
      → manifest_cache_key s.manifest_cache r url ≡ some key
      → (s' : Redirect deps store) × (w' : Writer) × (keep_manifest deps store world dates key b w s
          ≡ some (s', w'))
        × IsKept deps store dates s s'
  unfolding keep_manifest
  keep_manifest-IsKept r url key b w s v f own = elim (Option-cases s.manifest_cache) [
    | inl missing ↦ absurd (unfold manifest_cache_key in ground arith)
    | inr (c, there) ↦
        let (c', w', done, valid) = proxy_and_cache_manifest-IsValid key b w c (rw there at v) in
        (
          record s { manifest_cache = some c' },
          w',
          rw (there, keep_manifest, done) refl,
          record { limiter = refl; tokens = refl; manifests = valid; blobs = f },
        )
  ]

  keep_blob-HoldsFresh :
      (later : ℕ) (r : Request) (url : Bytes) (b : Reply) (c : Option store.State)
      → HoldsFresh store dates c
      → HoldsFresh store dates (keep_blob deps store world dates later r url b c)
  unfolding keep_blob
  keep_blob-HoldsFresh later r url b c f =
      elim (Option-cases (blob_redirect_cache_key deps store world dates c r url)) [
        | inl other ↦ rw (other, keep_blob) f
        | inr (key, own) ↦
            rw (own, keep_blob) (set-HoldsFresh store dates later key b.status b.header c law f)
      ]

  pass-IsKept :
      (later : ℕ) (r : Request) (url : Bytes) (b : Reply) (w : Writer) (s : Redirect deps store)
      → IsHeld s.manifest_cache
      → HoldsFresh store dates s.blob_cache
      → 2 ≤ length (split b'/' r.path)
      → (s' : Redirect deps store) × (w' : Writer) × (pass deps store world dates later r url b w s
          ≡ some (s', w'))
        × IsKept deps store dates s s'
  unfolding pass
  pass-IsKept later r url b w s v f long =
      let (w', fine) = pass_body-some (split b'/' r.path) b w long in
      (
        record s { blob_cache = keep_blob deps store world dates later r url b s.blob_cache },
        w',
        rw (fine, pass) refl,
        record {
          limiter = refl;
          tokens = refl;
          manifests = v;
          blobs = keep_blob-HoldsFresh later r url b s.blob_cache f;
        },
      )

  pub finish-IsKept :
      (later : ℕ) (r : Request) (url : Bytes) (b : Reply) (w : Writer) (s : Redirect deps store)
      → IsHeld s.manifest_cache
      → HoldsFresh store dates s.blob_cache
      → 2 ≤ length (split b'/' r.path)
      → (s' : Redirect deps store) × (w' : Writer) × (finish deps store world dates later r url b w
            s
          ≡ some (s', w'))
        × IsKept deps store dates s s'
  unfolding finish
  finish-IsKept later r url b w s v f long =
      elim (Bool-cases (is_list deps store world dates s r)) [
        | inl list ↦ (
          s,
          serve_list world s.repo b w,
          rw (list, finish) refl,
          record { limiter = refl; tokens = refl; manifests = v; blobs = f },
        )
        | inr page ↦ elim (Bool-cases (bytes_eq r.method (codes "GET") && b.status == 200)) [
          | inr other ↦
              let (s', w', done, kept) = pass-IsKept later r url b w s v f long in
              (s', w', rw (page, other, finish) done, kept)
          | inl fine ↦ elim (Option-cases (manifest_cache_key s.manifest_cache r url)) [
            | inl none_kept ↦
                let (s', w', done, kept) = pass-IsKept later r url b w s v f long in
                (s', w', rw (page, fine, none_kept, finish) done, kept)
            | inr (key, own) ↦
                let (s', w', done, kept) = keep_manifest-IsKept r url key b w s v f own in
                (s', w', rw (page, fine, own, finish) done, kept)
          ]
        ]
      ]
