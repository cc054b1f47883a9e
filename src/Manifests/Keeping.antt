-- ===== src/Manifests/Keeping.antt =====
-- A reply on its way through the manifest cache leaves the cache valid, whatever its body does.
use registry_redirect.Prelude.{
  ◌≡◌, refl, true, false, some, Bytes, arith, Bool-cases, inl, inr, ltb, ltb→lt,
}
use registry_redirect.Http.{
  Writer, error, write, write_header, Read, read_failed, read_some, read_body_with_limit, Reply,
}
use registry_redirect.ManifestCache.{Cache, entry_size, max_body_bytes}
use registry_redirect.ManifestCache.Linked.{IsValid}
use registry_redirect.ManifestCache.Refines.{set_stores, set_refuses}
use registry_redirect.Manifests.{after_read, proxy_and_cache_manifest}

after_read-IsValid :
    (key : Bytes) (reply : Reply) (read : Read) (w : Writer) (c : Cache)
    → IsValid c
    → (c' : Cache) × (w' : Writer) × (after_read key reply read w c ≡ some (c', w')) × IsValid c'
unfolding after_read
after_read-IsValid key reply (read_failed f) w c v = (c, error f.text 500 w, refl, v)
after_read-IsValid key reply (read_some out true rest) w c v =
    (c, write rest.content (write out (write_header reply.status w)), refl, v)
after_read-IsValid key reply (read_some out false rest) w c v =
    elim (Bool-cases (ltb c.max_bytes (entry_size reply.header out))) [
      | inl large ↦
          let refused = set_refuses key reply.status reply.header out c (ltb→lt _ _ large) in
          (c, write out (write_header reply.status w), rw (refused, after_read) refl, v)
      | inr room ↦
          let (c', done, valid, _, _) =
            set_stores key reply.status reply.header out c v (ground arith) in
          (c', write out (write_header reply.status w), rw (done, after_read) refl, valid)
    ]

-- `proxyAndCacheManifest` on a valid cache comes to an end and leaves a valid cache.
pub proxy_and_cache_manifest-IsValid :
    (key : Bytes) (reply : Reply) (w : Writer) (c : Cache)
    → IsValid c
    → (c' : Cache) × (w' : Writer) × (proxy_and_cache_manifest key reply w c ≡ some (c', w'))
      × IsValid c'
unfolding proxy_and_cache_manifest
proxy_and_cache_manifest-IsValid key reply w c v =
    after_read-IsValid key reply (read_body_with_limit reply.body (max_body_bytes c)) w c v
