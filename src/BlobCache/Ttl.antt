-- ===== src/BlobCache/Ttl.antt =====
-- How long a blob redirect is kept.
use registry_redirect.Prelude.{
  ℕ, ◌+◌, ◌^◌, ◌≤◌, ◌<◌, ◌≡◌, sym, ◌∙◌, true, false, none, some, [], ◌∷◌, Bytes, codes, arith,
  Option-cases, inl, inr, Bool-cases, ◌⊎◌,
}
use registry_redirect.BlobCache.{
  Dates, Store, expiry_margin, max_ttl, is_cacheable_status, url_expiry, sub, bounded_ttl, ttl, set,
  entry_size,
}
use registry_redirect.Header
use registry_redirect.Header.{Header}

-- The link of a location expires at a time: the location parses, and one of the two layouts gives
-- the time of its parameter.
pub record Expires (dates : Dates) (location : Bytes) (expires_at : ℕ) : Type 0 where
  pub value : Bytes
  pub parameter : dates.expiry_parameter location ≡ some value
  pub time : url_expiry dates value ≡ some expires_at

-- At a time, a link that lasts for a duration and a minute more, or one that expired so long before,
-- some 292 years, that the subtraction wraps around.
abbrev pub Lasts : ℕ → ℕ → ℕ → Type 0
Lasts e now t = (now + t + expiry_margin ≤ e) ⊎ (e + 2 ^ 63 < now + expiry_margin)

bounded_ttl_bounds :
    (expires_at now t : ℕ)
    → bounded_ttl expires_at now ≡ some t
    → (0 < t) × (t ≤ max_ttl) × Lasts expires_at now t
unfolding bounded_ttl sub
bounded_ttl_bounds expires_at now t h = ground arith

bounded_ttl-some :
    (expires_at now : ℕ)
    → now + expiry_margin < expires_at
    → (t : ℕ) × (bounded_ttl expires_at now ≡ some t)
      × ((t ≡ max_ttl) ⊎ (now + t + expiry_margin ≡ expires_at))
unfolding bounded_ttl sub
bounded_ttl-some expires_at now h = elim (Option-cases (bounded_ttl expires_at now)) [
  | inl nothing ↦ absurd (ground arith)
  | inr (t, given) ↦ (t, given, ground arith)
]

-- A link that expired 2 ^ 63 nanoseconds ago, less a minute.
pub bounded_ttl-wraps :
    (expires_at now : ℕ)
    → expires_at + 2 ^ 63 < now + expiry_margin
    → bounded_ttl expires_at now ≡ some max_ttl
unfolding bounded_ttl sub
bounded_ttl-wraps expires_at now h = ground arith

Expires-cases :
    (dates : Dates) (b : ℕ) (location : Bytes)
    → ((now : ℕ) → ttl dates (b ∷ location) now ≡ none)
      ⊎ ((e : ℕ) × Expires dates (b ∷ location) e
          × ((now : ℕ) → ttl dates (b ∷ location) now ≡ bounded_ttl e now))
unfolding ttl
Expires-cases dates b location = elim (Option-cases (dates.expiry_parameter (b ∷ location))) [
  | inl missing ↦ inl (λ now. rw (missing, ttl))
  | inr (value, found) ↦ elim (Option-cases (url_expiry dates value)) [
    | inl bad ↦ inl (λ now. rw (found, ttl, bad))
    | inr (e, time) ↦
        inr (
          e,
          record { value = value; parameter = found; time = time },
          λ now. rw (found, ttl, time),
        )
  ]
]

-- A time to live is above 0 and at most five minutes, and it ends a minute or more before the
-- link of the location expires, or that link has expired some 292 years ago.
pub ttl_bounds :
    (dates : Dates) (location : Bytes) (now t : ℕ)
    → ttl dates location now ≡ some t
    → (0 < t) × (t ≤ max_ttl) × ((e : ℕ) × Expires dates location e × Lasts e now t)
ttl_bounds dates [] now t h = absurd (unfold ttl in ground arith)
ttl_bounds dates (b ∷ location) now t h = elim (Expires-cases dates b location) [
  | inl never ↦ absurd (ground (arith, never now))
  | inr (e, expires, same) ↦
      let (pos, short, early) = bounded_ttl_bounds e now t (sym (same now) ∙ h) in
      (pos, short, (e, expires, early))
]

-- A location whose link is good for more than a minute gets a time to live: five minutes, or until a
-- minute before its end.
pub ttl-some :
    (dates : Dates) (b : ℕ) (location : Bytes) (now e : ℕ)
    → Expires dates (b ∷ location) e
    → now + expiry_margin < e
    → (t : ℕ) × (ttl dates (b ∷ location) now ≡ some t)
      × ((t ≡ max_ttl) ⊎ (now + t + expiry_margin ≡ e))
unfolding ttl
ttl-some dates b location now e expires h =
    let (t, given, long) = bounded_ttl-some e now h in
    (t, rw (expires.parameter, ttl, expires.time) given, long)

-- What a call of `set` does when it reaches the store: the status is one of the redirects, the link
-- expires, and the entry is kept for no longer than `Lasts` allows.
pub record IsStored (dates : Dates) (now : ℕ) (key : Bytes) (header : Header) (t : ℕ) (e : ℕ)
    : Type 0 where
  pub expires : Expires dates (Header.get header (codes "Location")) e
  pub positive : 0 < t
  pub short : t ≤ max_ttl
  pub early : Lasts e now t

module _ (store : Store) where
  -- `set` either leaves the store alone and says that it stored nothing, or the status is one of
  -- the redirects, the link of the `Location` header expires, and the entry goes to the store for
  -- a time to live above 0, of at most five minutes, that ends a minute or more before that, or the
  -- link has expired some 292 years ago.
  pub set_lem :
      (dates : Dates) (now : ℕ) (key : Bytes) (status : ℕ) (header : Header) (s : store.State)
      → (set store dates now key status header (some s) ≡ (some s, false))
        ⊎ ((is_cacheable_status status ≡ true)
            × ((t : ℕ) × (e : ℕ) × IsStored dates now key header t e
                × (set store dates now key status header (some s) ≡ (
                  some
                      (store.set_with_ttl now key
                        (record { status = status; header = header })
                        (entry_size key (record { status = status; header = header }))
                        t
                        s).0,
                  (store.set_with_ttl now key
                      (record { status = status; header = header })
                      (entry_size key (record { status = status; header = header }))
                      t
                      s).1,
                ))))
  unfolding set
  set_lem dates now key status header s = elim (Bool-cases (is_cacheable_status status)) [
    | inr other ↦ inl (rw (other, set))
    | inl redirect ↦ elim (Option-cases (ttl dates (Header.get header (codes "Location")) now)) [
      | inl none_given ↦ inl (rw (redirect, set, none_given))
      | inr (t, given) ↦
          let (pos, short, (e, expires, early)) =
            ttl_bounds dates (Header.get header (codes "Location")) now t given in
          inr (
            redirect,
            (
              t,
              e,
              record { expires = expires; positive = pos; short = short; early = early },
              rw (redirect, set, given),
            ),
          )
    ]
  ]
