-- ===== src/ClientIp.antt =====
-- `clientIP` of pkg/redirect/rate_limiter.go, with the `net.SplitHostPort` that it calls.
pub mod Named
mod Tests
use registry_redirect.Prelude.{
  ℕ, suc, ◌+◌, ◌≡◌, ◌≢◌, refl, Bool, true, false, Option, none, some, List, [], ◌∷◌, Bytes,
  Bytes-discrete, codes, ◌==◌, ite, if◌then◌else◌, take, drop, length, arith,
}
use registry_redirect.Header
use registry_redirect.Request.{Request}
use registry_redirect.Strings.{split, trim_space}

-- `strings.IndexByte` and `strings.LastIndexByte`.
unfoldable pub index_byte : ℕ → Bytes → Option ℕ
index_byte c [] = none
index_byte c (b ∷ s) =
    if b == c then some 0 else (elim (index_byte c s) [ none ↦ none | some i ↦ some (suc i) ])

unfoldable pub last_index_byte : ℕ → Bytes → Option ℕ
last_index_byte c [] = none
last_index_byte c (b ∷ s) = elim (last_index_byte c s) [
  | some i ↦ some (suc i)
  | none ↦ if b == c then some 0 else none
]

-- Whether a byte occurs.
unfoldable pub has_byte : ℕ → Bytes → Bool
has_byte c [] = false
has_byte c (b ∷ s) = if b == c then true else has_byte c s

-- `net.SplitHostPort` past the last colon, at `i`: the host, if there is no error.
unfoldable pub split_host_at : ℕ → Bytes → Option Bytes
split_host_at i [] = none
split_host_at i (b ∷ s) =
    if b == b'['
    then (elim (index_byte b']' (b ∷ s)) [
      | none ↦ none
      | some end ↦
          if end + 1 == i
          then (if has_byte b'[' s
              then none
              else if has_byte b']' (drop (end + 1) (b ∷ s))
              then none
              else some (drop 1 (take end (b ∷ s))))
          else none
    ])
    else if has_byte b':' (take i (b ∷ s))
    then none
    else if has_byte b'[' (b ∷ s)
    then none
    else if has_byte b']' (b ∷ s)
    then none
    else some (take i (b ∷ s))

unfoldable pub split_host : Bytes → Option Bytes
split_host hostport = elim (last_index_byte b':' hostport) [
  | none ↦ none
  | some i ↦ split_host_at i hostport
]

abbrev first : List Bytes → Bytes
first [] = []
first (part ∷ parts) = part

-- `a` if it is not empty, else `b`.
abbrev or_else : Bytes → Bytes → Bytes
or_else [] b = b
or_else (x ∷ xs) b = x ∷ xs

-- `clientIP` past the headers.
unfoldable pub remote_ip : Bytes → Bytes
remote_ip remote_addr = elim (split_host remote_addr) [
  | some host ↦ host
  | none ↦ or_else remote_addr (codes "unknown")
]

-- The first address of a list of forwarding hops, and nothing for an empty list.
unfoldable pub forwarded_ip : Bytes → Bytes
forwarded_ip [] = []
forwarded_ip (b ∷ s) = trim_space (first (split b',' (b ∷ s)))

unfoldable pub client_ip : Request → Bytes
client_ip r = or_else (trim_space (Header.get r.header (codes "Fly-Client-IP"))) (
    or_else (forwarded_ip (Header.get r.header (codes "X-Forwarded-For")))
      (or_else (trim_space (Header.get r.header (codes "X-Real-IP"))) (remote_ip r.remote_addr)))
