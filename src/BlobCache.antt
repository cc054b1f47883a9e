-- ===== src/BlobCache.antt =====
-- pkg/redirect/blob_cache.go: how long a blob redirect may be served again. The store is the one of
-- github.com/dgraph-io/ristretto, `Store` here: it may refuse an entry and forget it at any time.
-- `url.Parse` with the `se` parameter of its query, and `time.Parse` for the two RFC 3339 layouts,
-- are the arguments `Dates`. Times are nanoseconds from a moment before all of them, and durations int64.
pub mod Ttl
pub mod Fresh
mod Tests
use registry_redirect.Prelude.{
  ℕ, ◌+◌, ◌-◌, ◌*◌, ◌/◌, ◌%◌, ◌^◌, Bool, true, false, ◌||◌, not, Option, none, some, List, [], ◌∷◌,
  Bytes, codes, ltb, leb, ◌==◌, if◌then◌else◌, length,
}
use registry_redirect.Decimal.{itoa}
use registry_redirect.Header
use registry_redirect.Header.{Header, add_header_sizes}

abbrev pub expiry_margin : ℕ
expiry_margin = 60 * 10 ^ 9

abbrev pub max_ttl : ℕ
max_ttl = 5 * 60 * 10 ^ 9

-- `blobRedirectCacheEntry`.
pub record Entry : Type 0 where
  pub status : ℕ
  pub header : Header

-- `u.Query().Get("se")` of the parsed location, nothing where `url.Parse` fails, and `time.Parse` with
-- each layout.
pub record Dates : Type 0 where
  pub expiry_parameter : Bytes → Option Bytes
  pub parse_rfc3339 : Bytes → Option ℕ
  pub parse_rfc3339_nano : Bytes → Option ℕ

-- A ristretto cache of such entries: `Get` at a time, and `SetWithTTL` followed by `Wait`.
pub record Store : Type 1 where
  pub State : Type 0
  pub get : ℕ → Bytes → State → Option Entry
  pub set_with_ttl : ℕ → Bytes → Entry → ℕ → ℕ → State → State × Bool

unfoldable pub num_counters : ℕ → ℕ
num_counters max_bytes =
    let counters = max_bytes / 1024 * 10 in
    if ltb counters 10000 then 10000 else if ltb 10000000 counters then 10000000 else counters

unfoldable pub is_cacheable_status : ℕ → Bool
is_cacheable_status status =
    status == 301 || status == 302 || status == 303 || status == 307 || status == 308

-- The first layout that parses.
abbrev first_of : Option ℕ → Option ℕ → Option ℕ
first_of none b = b
first_of (some a) b = some a

-- `blobRedirectURLExpiry`: the value of the parameter, empty where it is missing.
unfoldable pub url_expiry : Dates → Bytes → Option ℕ
url_expiry dates [] = none
url_expiry dates (b ∷ value) =
    first_of (dates.parse_rfc3339 (b ∷ value)) (dates.parse_rfc3339_nano (b ∷ value))

-- `t.Sub(u)`, an int64 in two's complement: it stops at the least and the greatest duration.
unfoldable pub sub : ℕ → ℕ → ℕ
sub t u =
    if leb u t
    then if ltb (2 ^ 63 - 1) (t - u) then 2 ^ 63 - 1 else t - u
    else if leb (2 ^ 63) (u - t)
    then 2 ^ 63
    else 2 ^ 64 - (u - t)

-- `expiresAt.Sub(now) - margin`, which wraps around, if it is above 0, and at most the maximum.
unfoldable pub bounded_ttl : ℕ → ℕ → Option ℕ
bounded_ttl expires_at now =
    let ttl = (sub expires_at now + (2 ^ 64 - expiry_margin)) % 2 ^ 64 in
    if ttl == 0 || leb (2 ^ 63) ttl
    then none
    else if ltb max_ttl ttl
    then some max_ttl
    else some ttl

unfoldable pub ttl : Dates → Bytes → ℕ → Option ℕ
ttl dates [] now = none
ttl dates (b ∷ location) now = elim (dates.expiry_parameter (b ∷ location)) [
  | none ↦ none
  | some value ↦ elim (url_expiry dates value) [
    | none ↦ none
    | some expires_at ↦ bounded_ttl expires_at now
  ]
]

unfoldable pub entry_size : Bytes → Entry → ℕ
entry_size key entry = add_header_sizes (length key + length (itoa entry.status)) entry.header

module _ (store : Store) where
  open store use {State}

  -- `blobRedirectCache.get`, on a cache that may be nil.
  unfoldable pub get : ℕ → Bytes → Option State → Option Entry
  get now key none = none
  get now key (some s) = store.get now key s

  unfoldable pub set : Dates → ℕ → Bytes → ℕ → Header → Option State → Option State × Bool
  set dates now key status header none = (none, false)
  set dates now key status header (some s) =
      let stored : ℕ → Option State × Bool = λ t.
        let entry : Entry = record { status = status; header = header } in
        let (s', kept) = store.set_with_ttl now key entry (entry_size key entry) t s in
        (some s', kept) in
      if not (is_cacheable_status status)
      then (some s, false)
      else elim (ttl dates (Header.get header (codes "Location")) now) [
        | none ↦ (some s, false)
        | some t ↦ stored t
      ]
