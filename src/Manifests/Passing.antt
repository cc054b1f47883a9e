-- ===== src/Manifests/Passing.antt =====
-- A manifest of the registry reaches the client whole, and again from the cache.
use registry_redirect.Prelude.{
  ℕ, ◌≤◌, ◌≡◌, refl, ap, ◌∙◌, false, none, some, List, [], ◌∷◌, ◌++◌, Bytes, codes, arith,
  Bool-cases, inl, inr, ◌⊎◌, length, ltb, ltb→lt,
}
use registry_redirect.Header
use registry_redirect.Header.{Header}
use registry_redirect.Http.{Writer, new_writer, copy_headers, write_header, write, Read, Reply}
use registry_redirect.Http.Bodies.{
  IsRead, whole, broken, partial, read_body_with_limit-IsRead, read_body_with_limit_whole,
}
use registry_redirect.ManifestCache
use registry_redirect.ManifestCache.{Cache, Entry, entry_size, make_entry, max_body_bytes}
use registry_redirect.ManifestCache.Linked.{IsValid}
use registry_redirect.ManifestCache.Lru.{find_entry, fitting}
use registry_redirect.ManifestCache.Eviction.{view}
use registry_redirect.ManifestCache.Refines.{stored, set_stores, set_refuses, get_lem}
use registry_redirect.Manifests.{
  with_length, serve_cached_manifest, if_none_match_matches, after_read, proxy_and_cache_manifest,
}
use registry_redirect.Paths.{bytes_eq}
use registry_redirect.Request.{Request}

-- What the cache holds after a reply: as before, or with the reply as its newest entry.
pub record IsOffered (key : Bytes) (reply : Reply) (c c' : Cache) : Type 0 where
  pub valid : IsValid c'
  pub list :
      (view c' ≡ view c)
      ⊎ (view c'
          ≡ stored c.max_bytes
              (make_entry key reply.status reply.header reply.body.content)
              (view c))

-- The writer that has sent a reply.
abbrev pub sent : Reply → Writer → Writer
sent reply w = record w {
  sent = some (reply.status, w.header);
  body = w.body ++ reply.body.content;
}

append_assoc : (a b c : Bytes) → (a ++ b) ++ c ≡ a ++ (b ++ c)
append_assoc [] b c = refl
append_assoc (x ∷ a) b c = ap (◌∷◌ x) (append_assoc a b c)

write-once :
    (status : ℕ) (body : Bytes) (w : Writer)
    → w.sent ≡ none
    → write body (write_header status w)
      ≡ record w { sent = some (status, w.header); body = w.body ++ body }
unfolding write write_header
write-once status body w h = rw h refl

write-twice :
    (status : ℕ) (out rest : Bytes) (w : Writer)
    → w.sent ≡ none
    → write rest (write out (write_header status w))
      ≡ record w { sent = some (status, w.header); body = w.body ++ (out ++ rest) }
unfolding write write_header
write-twice status out rest w h = rw h (rw (append_assoc w.body out rest) refl)

after_read_passes :
    (key : Bytes) (reply : Reply) (w : Writer) (c : Cache) (r : Read)
    → IsValid c
    → reply.body.failure ≡ none
    → w.sent ≡ none
    → IsRead reply.body c.max_bytes r
    → (c' : Cache) × (after_read key reply r w c ≡ some (c', sent reply w))
      × IsOffered key reply c c'
unfolding after_read
after_read_passes key reply w c _ v fine fresh (broken f small bad) = absurd (ground arith)
after_read_passes key reply w c _ v fine fresh (partial out rest long all) = (
  c,
  rw (write-twice reply.status out rest w fresh, all) refl,
  record { valid = v; list = inl refl },
)
after_read_passes key reply w c _ v fine fresh (whole small _) =
    elim (Bool-cases (ltb c.max_bytes (entry_size reply.header reply.body.content))) [
      | inl large ↦
          let refused =
            set_refuses key reply.status reply.header reply.body.content c (ltb→lt _ _ large) in
          (
            c,
            rw (refused, after_read, write-once reply.status reply.body.content w fresh) refl,
            record { valid = v; list = inl refl },
          )
      | inr room ↦
          let (c', done, valid, list, _) =
            set_stores key reply.status reply.header reply.body.content c v (ground arith) in
          (
            c',
            rw (done, after_read, write-once reply.status reply.body.content w fresh) refl,
            record { valid = valid; list = inr list },
          )
    ]

-- On a valid cache, where the body does not fail and nothing was sent before, the client gets the
-- status and the whole body, however long it is. The cache stays valid, and holds what it held or
-- has the reply as its newest entry.
pub proxy_and_cache_manifest_passes :
    (key : Bytes) (reply : Reply) (w : Writer) (c : Cache)
    → IsValid c
    → reply.body.failure ≡ none
    → w.sent ≡ none
    → (c' : Cache) × (proxy_and_cache_manifest key reply w c ≡ some (c', sent reply w))
      × IsOffered key reply c c'
unfolding proxy_and_cache_manifest max_body_bytes
proxy_and_cache_manifest_passes key reply w c v fine fresh =
    after_read_passes key reply w c _ v fine fresh
      (read_body_with_limit-IsRead reply.body c.max_bytes)

find_entry-stored :
    (budget : ℕ) (e : Entry) (l : List Entry)
    → e.size ≤ budget
    → find_entry e.key (stored budget e l) ≡ some e
unfolding find_entry fitting
find_entry-stored budget e l h = ground arith

serve_plain :
    (q : Request) (url : Bytes) (e : Entry)
    → bytes_eq q.method (codes "HEAD") ≡ false
    → Header.get q.header (codes "If-None-Match") ≡ []
    → (h : Header) × (serve_cached_manifest q url e new_writer
        ≡ record { header = h; sent = some (e.status, h); body = e.body })
unfolding serve_cached_manifest if_none_match_matches write write_header
serve_plain q url e get plain =
    let h =
      with_length (length e.body)
        (Header.set (copy_headers [] e.header) (codes "X-Redirected") url) in
    (h, rw (get, plain, serve_cached_manifest) refl)

-- A reply that fits the cache is found there, and served to every plain request for it.
pub proxy_and_cache_manifest_kept :
    (key : Bytes) (reply : Reply) (w : Writer) (c : Cache)
    → IsValid c
    → reply.body.failure ≡ none
    → w.sent ≡ none
    → length reply.body.content ≤ c.max_bytes
    → entry_size reply.header reply.body.content ≤ c.max_bytes
    → (c' : Cache) × (proxy_and_cache_manifest key reply w c ≡ some (c', sent reply w))
      × ((e : Entry) × ((ManifestCache.get key c').1 ≡ some e)
          × ((q : Request) (url : Bytes)
              → bytes_eq q.method (codes "HEAD") ≡ false
              → Header.get q.header (codes "If-None-Match") ≡ []
              → (h : Header) × (serve_cached_manifest q url e new_writer ≡ record {
                header = h;
                sent = some (reply.status, h);
                body = reply.body.content;
              })))
unfolding proxy_and_cache_manifest max_body_bytes after_read
proxy_and_cache_manifest_kept key reply w c v fine fresh small fits =
    let e = make_entry key reply.status reply.header reply.body.content in
    let (c', done, valid, list, _) =
      set_stores key reply.status reply.header reply.body.content c v fits in
    (
      c',
      rw
          (
            read_body_with_limit_whole reply.body c.max_bytes small fine,
            after_read,
            done,
            write-once reply.status reply.body.content w fresh,
          )
          refl,
      (
        e,
        (get_lem key c' valid).0
            ∙ ap (find_entry key) list
            ∙ unfold make_entry in find_entry-stored c.max_bytes e (view c) fits,
        λ q url get plain. unfold make_entry in serve_plain q url e get plain,
      ),
    )

-- On a valid cache, and a writer that has sent nothing, a reply whose body does not fail and
-- whose body and size fit the budget is found in the cache under its key afterwards. A request
-- for it other than HEAD, without `If-None-Match`, then gets the status and the body that the
-- registry gave.
pub proxy_and_cache_manifest_again :
    (key : Bytes) (reply : Reply) (w : Writer) (c : Cache) (q : Request) (url : Bytes)
    → IsValid c
    → reply.body.failure ≡ none
    → w.sent ≡ none
    → length reply.body.content ≤ c.max_bytes
    → entry_size reply.header reply.body.content ≤ c.max_bytes
    → bytes_eq q.method (codes "HEAD") ≡ false
    → Header.get q.header (codes "If-None-Match") ≡ []
    → (c' : Cache) × (proxy_and_cache_manifest key reply w c ≡ some (c', sent reply w))
      × ((e : Entry) × ((ManifestCache.get key c').1 ≡ some e)
          × ((h : Header) × (serve_cached_manifest q url e new_writer
                ≡ record { header = h; sent = some (reply.status, h); body = reply.body.content })))
proxy_and_cache_manifest_again key reply w c q url v fine fresh small fits get plain =
    let (c', done, (e, hit, serves)) =
      proxy_and_cache_manifest_kept key reply w c v fine fresh small fits in
    (c', done, (e, hit, serves q url get plain))
