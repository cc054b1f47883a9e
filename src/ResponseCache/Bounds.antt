-- ===== src/ResponseCache/Bounds.antt =====
-- The response cache never holds more entries than its cap.
use registry_redirect.Prelude.{
  ℕ, ◌+◌, ◌≤◌, ◌≡◌, Option, none, some, Bytes, Bytes-discrete, length, arith, Option-cases, inl,
  inr, Bool-cases, ltb, leb, ◌<◌, true,
}
use registry_redirect.GoMap.{
  IsMap, lookup, insert-IsMap, erase-IsMap, sweep-IsMap, length-sweep-le, length-erase-le,
  length-insert_new, length-insert_old,
}
use registry_redirect.ResponseCache.{
  Response, Entry, Cache, init, get, has, drop_expired, store, set_full, set,
}

pub record IsBounded (c : Cache) : Type 0 where
  pub is_map : IsMap Bytes-discrete c.entries
  pub capped : length c.entries ≤ c.max

-- A disabled cache holds nothing.
abbrev pub IsValid : Option Cache → Type 0
IsValid none = Unit
IsValid (some c) = IsBounded c

pub init-IsValid : (ttl n : ℕ) → IsValid (some (init ttl n))
unfolding init
init-IsValid ttl n = record { is_map = tt; capped = omega arith }

-- After `get` a cache that was within its cap, with no key twice, still is: on a miss, on a hit
-- and when an expired entry is dropped.
pub get-IsValid : (now : ℕ) (key : Bytes) (c : Option Cache) → IsValid c → IsValid (get now key c).0
unfolding get
get-IsValid now key none h = tt
get-IsValid now key (some c) h = elim (Option-cases (lookup Bytes-discrete key c.entries)) [
  | inl miss ↦ rw (miss, get) h
  | inr (e, hit) ↦ elim (Bool-cases (ltb now e.expires_at)) [
    | inl live ↦ rw (hit, get, live) h
    | inr expired ↦
        rw (hit, get, expired)
          (record {
            is_map = erase-IsMap Bytes-discrete key c.entries h.is_map;
            capped = omega (arith, length-erase-le Bytes-discrete key c.entries, h.capped);
          })
  ]
]

store-IsBounded :
    (now : ℕ) (key : Bytes) (value : Response) (c : Cache)
    → IsBounded c
    → (lookup Bytes-discrete key c.entries ≡ none → length c.entries < c.max)
    → IsBounded (store now key value c)
unfolding store
store-IsBounded now key value c h room = record {
  is_map = insert-IsMap Bytes-discrete key (entry) c.entries h.is_map;
  capped = elim (Option-cases (lookup Bytes-discrete key c.entries)) [
    | inl new ↦ omega (arith, length-insert_new Bytes-discrete key entry c.entries new, room new)
    | inr (e, old) ↦
        omega (arith, length-insert_old Bytes-discrete key entry e c.entries old, h.capped)
  ];
}
  where
    entry : Entry
    entry = record { value = value; expires_at = now + c.ttl }

drop_expired-IsBounded :
    (now : ℕ) (c : Cache)
    → IsBounded c
    → IsBounded (record c { entries = drop_expired now c.entries })
unfolding drop_expired
drop_expired-IsBounded now c h = record {
  is_map = sweep-IsMap Bytes-discrete _ c.entries h.is_map;
  capped = omega (arith, length-sweep-le _ c.entries, h.capped);
}

set_full-IsValid :
    (now : ℕ) (key : Bytes) (value : Response) (c : Cache)
    → IsBounded c
    → IsValid (set_full now key value c).0
unfolding set_full
set_full-IsValid now key value c h = elim (Bool-cases (leb c.max (length c.entries))) [
  | inl full ↦ rw full h
  | inr room ↦ rw room (store-IsBounded now key value c h (λ _. ground arith))
]

-- After `set` a cache that was within its cap, with no key twice, still is, whatever the time,
-- the key and the value.
pub set-IsValid :
    (now : ℕ) (key : Bytes) (value : Response) (c : Option Cache)
    → IsValid c
    → IsValid (set now key value c).0
unfolding set
set-IsValid now key value none h = tt
set-IsValid now key value (some c) h = elim (Bool-cases (has key c.entries)) [
  | inl old ↦ rw (old, set) (store-IsBounded now key value c h (λ new. absurd (has_none new old)))
  | inr new ↦ elim (Bool-cases (leb c.max (length c.entries))) [
    | inl full ↦
        rw (new, full, set) (set_full-IsValid now key value _ (drop_expired-IsBounded now c h))
    | inr room ↦ rw (new, room, set) (store-IsBounded now key value c h (λ _. ground arith))
  ]
]
  where
    has_none : lookup Bytes-discrete key c.entries ≡ none → has key c.entries ≡ true → ⊥
    has_none new old = unfold has in ground arith
