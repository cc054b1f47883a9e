-- ===== src/ResponseCache/Expiry.antt =====
-- What can be read from the response cache at a moment, and what its methods do to it.
use registry_redirect.Prelude.{
  ℕ, ◌+◌, ◌≤◌, ◌<◌, ◌≡◌, refl, Option, none, some, Bytes, Bytes-discrete, length, arith, inl, inr,
  Bool-cases, ltb, leb, ite, if◌then◌else◌, ◌||◌, true, false, not, Bool,
}
use registry_redirect.GoMap.{lookup, lookup-insert, lookup-erase, lookup-sweep, length-sweep-le}
use registry_redirect.ResponseCache.{
  Response, Entry, Cache, get, has, drop_expired, store, set_full, set,
}
use registry_redirect.ResponseCache.Bounds.{IsBounded, get-IsValid}

-- The answer of an entry at a time.
abbrev pub live : ℕ → Option Entry → Option Response
live t none = none
live t (some e) = if ltb t e.expires_at then some e.value else none

-- What a `get` at time `t` finds.
abbrev pub readable : ℕ → Bytes → Option Cache → Option Response
readable t key none = none
readable t key (some c) = live t (lookup Bytes-discrete key c.entries)

-- `get` answers what is stored under the key and has not expired. From then on it changes nothing
-- that can be read, under any key: what it removes had expired.
pub readable-get :
    (now : ℕ) (key : Bytes) (c : Option Cache)
    → ((get now key c).1 ≡ readable now key c)
      × ((t : ℕ) (q : Bytes) → now ≤ t → readable t q (get now key c).0 ≡ readable t q c)
unfolding get
readable-get now key none = (refl, λ t q h. refl)
readable-get now key (some c) =
    (ground arith, λ t q h. ground (arith, lookup-erase Bytes-discrete q key c.entries))

readable-store :
    (now : ℕ) (key : Bytes) (value : Response) (c : Cache) (t : ℕ) (q : Bytes)
    → readable t q (some (store now key value c))
      ≡ ite
          (Bytes-discrete q key)
          (if ltb t (now + c.ttl) then some value else none)
          (readable t q (some c))
unfolding store
readable-store now key value c t q = ground (
  arith,
  lookup-insert Bytes-discrete q key (record { value = value; expires_at = now + c.ttl }) c.entries,
)

readable-drop_expired :
    (now : ℕ) (c : Cache) (t : ℕ) (q : Bytes)
    → IsBounded c
    → now ≤ t
    → readable t q (some (record c { entries = drop_expired now c.entries }))
      ≡ readable t q (some c)
unfolding drop_expired
readable-drop_expired now c t q h later =
    ground
      (arith, lookup-sweep Bytes-discrete (λ _ e. not (ltb now e.expires_at)) q c.entries h.is_map)

-- What `set` leaves to read: the new value under its key for the time to live if it was stored, and
-- all else as it was.
abbrev pub after_set : ℕ → Bytes → Response → Cache → Bool → ℕ → Bytes → Option Response
after_set now key value c true t q =
    ite (Bytes-discrete q key) (if ltb t (now + c.ttl) then some value else none)
      (readable t q (some c))
after_set now key value c false t q = readable t q (some c)

set_full_lem :
    (now : ℕ) (key : Bytes) (value : Response) (c : Cache) (t : ℕ) (q : Bytes)
    → IsBounded c
    → now ≤ t
    → readable t q (set_full now key value (record c { entries = drop_expired now c.entries })).0
      ≡ after_set now key value c
          (set_full now key value (record c { entries = drop_expired now c.entries })).1
          t
          q
unfolding set_full
set_full_lem now key value c t q h later =
    let d : Cache = record c { entries = drop_expired now c.entries } in
    elim (Bool-cases (leb d.max (length d.entries))) [
      | inl full ↦ rw full (readable-drop_expired now c t q h later)
      | inr room ↦
          rw (room, readable-store now key value d t q, readable-drop_expired now c t q h later)
    ]

pub readable-set :
    (now : ℕ) (key : Bytes) (value : Response) (c : Cache)
    → IsBounded c
    → ((set now key value (some c)).1
        ≡ (has key c.entries || ltb (length (drop_expired now c.entries)) c.max))
      × ((t : ℕ) (q : Bytes)
          → now ≤ t
          → readable t q (set now key value (some c)).0
            ≡ after_set now key value c (set now key value (some c)).1 t q)
unfolding set set_full
readable-set now key value c h = (result, reads)
  where
    result :
        (set now key value (some c)).1
        ≡ (has key c.entries || ltb (length (drop_expired now c.entries)) c.max)
    result =
        let fewer : length (drop_expired now c.entries) ≤ length c.entries =
          unfold drop_expired in length-sweep-le _ c.entries in
        ground arith

    reads :
        (t : ℕ) (q : Bytes)
        → now ≤ t
        → readable t q (set now key value (some c)).0
          ≡ after_set now key value c (set now key value (some c)).1 t q
    reads t q later = elim (Bool-cases (has key c.entries)) [
      | inl old ↦ rw (old, set) (readable-store now key value c t q)
      | inr new ↦ elim (Bool-cases (leb c.max (length c.entries))) [
        | inl full ↦ rw (new, full, set) (set_full_lem now key value c t q h later)
        | inr room ↦ rw (new, room, set) (readable-store now key value c t q)
      ]
    ]

-- A look into a cache leaves its time to live and its bound.
pub get-Cache :
    (now : ℕ) (key : Bytes) (c : Cache)
    → IsBounded c
    → (c' : Cache) × ((get now key (some c)).0 ≡ some c') × (c'.ttl ≡ c.ttl) × IsBounded c'
get-Cache now key c h = go (get now key (some c)).0 refl
  where
    same_ttl : (c' : Cache) → (get now key (some c)).0 ≡ some c' → c'.ttl ≡ c.ttl
    same_ttl c' e = unfold get in ground arith

    go :
        (o : Option Cache)
        → (get now key (some c)).0 ≡ o
        → (c' : Cache) × ((get now key (some c)).0 ≡ some c') × (c'.ttl ≡ c.ttl) × IsBounded c'
    go none e = absurd (unfold get in ground arith)
    go (some c') e = (c', e, same_ttl c' e, rw e at (get-IsValid now key (some c) h))

-- A stored answer can be read for the time to live.
pub readable_stored :
    (later t : ℕ) (key : Bytes) (value : Response) (c : Cache)
    → IsBounded c
    → (set later key value (some c)).1 ≡ true
    → later ≤ t
    → t < later + c.ttl
    → readable t key (set later key value (some c)).0 ≡ some value
readable_stored later t key value c h taken from till =
    let (_, reads) = readable-set later key value c h in
    let after = reads t key from in ground (arith, after)
