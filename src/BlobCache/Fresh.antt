-- ===== src/BlobCache/Fresh.antt =====
-- What may be in the blob cache, and until when a link is good.
use registry_redirect.Prelude.{
  ℕ, ◌+◌, ◌^◌, ◌≤◌, ◌<◌, ◌≡◌, ◌≢◌, refl, sym, subst, true, Option, none, some, [], ◌∷◌, Bytes,
  codes, arith, ◌⊎◌, inl, inr,
}
use registry_redirect.BlobCache.{
  Dates, Store, Entry, expiry_margin, max_ttl, is_cacheable_status, entry_size, ttl, set, get,
}
use registry_redirect.BlobCache.Ttl.{Expires, Lasts, bounded_ttl-wraps, set_lem}
use registry_redirect.Header
use registry_redirect.Header.{Header}

-- Ristretto's promise: a `Get` after a `SetWithTTL` finds the new entry, under its key and not after its
-- time to live, or what it would have found before.
pub record IsStore (store : Store) : Type 0 where
  pub kept :
      (now t size ttl : ℕ) (key k : Bytes) (entry e : Entry) (s : store.State)
      → store.get t k (store.set_with_ttl now key entry size ttl s).0 ≡ some e
      → ((k ≡ key) × (e ≡ entry) × (t ≤ now + ttl)) ⊎ (store.get t k s ≡ some e)

-- An entry at a time: a redirect whose link is good for a minute more, or that was stored at a time, no
-- more than five minutes before, at which the link had expired for 2 ^ 63 nanoseconds less a minute.
pub record IsFresh (dates : Dates) (t : ℕ) (entry : Entry) : Type 0 where
  pub redirect : is_cacheable_status entry.status ≡ true
  pub expires_at : ℕ
  pub expires : Expires dates (Header.get entry.header (codes "Location")) expires_at
  pub early :
      (t + expiry_margin ≤ expires_at)
      ⊎ ((stored : ℕ) × (t ≤ stored + max_ttl) × (expires_at + 2 ^ 63 < stored + expiry_margin))

Lasts-until :
    (e now t ttl : ℕ)
    → t ≤ now + ttl
    → ttl ≤ max_ttl
    → Lasts e now ttl
    → (t + expiry_margin ≤ e)
      ⊎ ((stored : ℕ) × (t ≤ stored + max_ttl) × (e + 2 ^ 63 < stored + expiry_margin))
Lasts-until e now t ttl early short (inl good) = inl (omega arith)
Lasts-until e now t ttl early short (inr old) = inr (now, omega arith, old)

module _ (store : Store) (dates : Dates) where
  -- Whatever can be found in the cache is fresh when it is found.
  abbrev pub HoldsFresh : Option store.State → Type 0
  HoldsFresh c = (t : ℕ) (key : Bytes) (e : Entry) → get store t key c ≡ some e → IsFresh dates t e

  pub set-HoldsFresh :
      (now : ℕ) (key : Bytes) (status : ℕ) (header : Header) (c : Option store.State)
      → IsStore store
      → HoldsFresh c
      → HoldsFresh (set store dates now key status header c).0
  unfolding set get
  set-HoldsFresh now key status header none law h t k e found = h t k e found
  set-HoldsFresh now key status header (some s) law h t k e found =
      elim (set_lem store dates now key status header s) [
        | inl same ↦ h t k e (subst (λ x. get store t k x.0 ≡ some e) same found)
        | inr (redirect, (ttl, expires_at, i, stored)) ↦
            let entry : Entry = record { status = status; header = header } in
            let at_store : store.get t k
                  (store.set_with_ttl now key entry (entry_size key entry) ttl s).0
                ≡ some e =
              subst (λ x. get store t k x.0 ≡ some e) stored found in
            elim (law.kept now t (entry_size key entry) ttl key k entry e s at_store) [
              | inl (_, new, early) ↦ subst (IsFresh dates t) (sym new) (record {
                redirect = redirect;
                expires_at = expires_at;
                expires = i.expires;
                early = Lasts-until expires_at now t ttl early i.short i.early;
              })
              | inr old ↦ h t k e old
            ]
      ]

  -- A redirect whose link expired 2 ^ 63 nanoseconds ago, less a minute, or earlier, is stored for five
  -- minutes like one whose link is good for that long.
  pub set_stale :
      (now : ℕ) (key location : Bytes) (status expires_at : ℕ) (header : Header) (s : store.State)
      → is_cacheable_status status ≡ true
      → Header.get header (codes "Location") ≡ location
      → location ≢ []
      → Expires dates location expires_at
      → expires_at + 2 ^ 63 < now + expiry_margin
      → let entry : Entry = record { status = status; header = header } in
        let (s', kept) = store.set_with_ttl now key entry (entry_size key entry) max_ttl s in
        set store dates now key status header (some s) ≡ (some s', kept)
  unfolding set ttl
  set_stale now key [] status expires_at header s redirect at_location filled expires old =
      absurd (filled refl)
  set_stale now key (b ∷ location) status expires_at header s redirect at_location filled expires
        old =
      rw (
        redirect,
        set,
        at_location,
        ttl,
        expires.parameter,
        expires.time,
        bounded_ttl-wraps expires_at now old,
      )
