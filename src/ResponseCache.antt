-- ===== src/ResponseCache.antt =====
-- pkg/redirect/response_cache.go: the cache of upstream answers with a fixed time to live and a
-- cap on the entries. It is nil when the option disables it. The mutex makes each method one step;
-- the time that a method reads is its argument, in nanoseconds.
pub mod Bounds
pub mod Expiry
mod Tests
use registry_redirect.Prelude.{
  ℕ, ◌+◌, Bool, true, false, not, ◌&&◌, Option, none, some, List, [], Bytes, Bytes-discrete, ltb,
  leb, if◌then◌else◌, length,
}
use registry_redirect.GoMap.{lookup, insert, erase, sweep}
use registry_redirect.Header.{Header}

-- `cachedResponse`.
pub record Response : Type 0 where
  pub status : ℕ
  pub header : Header
  pub body : Bytes

-- `newCachedResponse`: the clones are the values themselves.
unfoldable pub new_response : ℕ → Header → Bytes → Response
new_response status header body = record { status = status; header = header; body = body }

-- `responseCacheEntry`.
pub record Entry : Type 0 where
  pub value : Response
  pub expires_at : ℕ

-- `responseCache`.
pub record Cache : Type 0 where
  pub ttl : ℕ
  pub max : ℕ
  pub entries : List (Bytes × Entry)

unfoldable pub init : ℕ → ℕ → Cache
init ttl max_entries = record { ttl = ttl; max = max_entries; entries = [] }

-- `now.Before(t)`.
abbrev pub before : ℕ → ℕ → Bool
before = ltb

unfoldable pub get : ℕ → Bytes → Option Cache → Option Cache × Option Response
get now key none = (none, none)
get now key (some c) = elim (lookup Bytes-discrete key c.entries) [
  | none ↦ (some c, none)
  | some entry ↦
      if not (before now entry.expires_at)
      then (some (record c { entries = erase Bytes-discrete key c.entries }), none)
      else (some c, some entry.value)
]

-- `_, exists := c.entries[key]`.
unfoldable pub has : Bytes → List (Bytes × Entry) → Bool
has key entries = elim (lookup Bytes-discrete key entries) [ none ↦ false | some _ ↦ true ]

-- The loop that drops what has expired.
unfoldable pub drop_expired : ℕ → List (Bytes × Entry) → List (Bytes × Entry)
drop_expired now = sweep (λ _ e. not (before now e.expires_at))

-- `c.entries[key] = …` with the expiry that the time to live gives.
unfoldable pub store : ℕ → Bytes → Response → Cache → Cache
store now key value c = record c {
  entries =
      insert Bytes-discrete key (record { value = value; expires_at = now + c.ttl }) c.entries;
}

-- Without the expired entries, as `set` tries once for a new key in a full cache.
unfoldable pub set_full : ℕ → Bytes → Response → Cache → Option Cache × Bool
set_full now key value c =
    if leb c.max (length c.entries) then (some c, false) else (some (store now key value c), true)

unfoldable pub set : ℕ → Bytes → Response → Option Cache → Option Cache × Bool
set now key value none = (none, false)
set now key value (some c) =
    if not (has key c.entries) && leb c.max (length c.entries)
    then set_full now key value (record c { entries = drop_expired now c.entries })
    else (some (store now key value c), true)
