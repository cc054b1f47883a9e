-- ===== src/ClientIp/Named.antt =====
-- When a request has a client address, and that of a plain connection.
use registry_redirect.Prelude.{
  ℕ, ◌≡◌, ◌≢◌, refl, ap, false, none, some, [], ◌∷◌, ◌++◌, Bytes, codes, take, length, arith, All,
  Option-cases, inl, inr,
}
use registry_redirect.GoMap.{lookup}
use registry_redirect.Header
use registry_redirect.Request.{Request}
use registry_redirect.Strings.{trim_space}
use registry_redirect.ClientIp.{
  has_byte, last_index_byte, split_host_at, split_host, or_else, remote_ip, forwarded_ip, client_ip,
}

or_else-ne-nil : (a b : Bytes) → b ≢ [] → or_else a b ≢ []
or_else-ne-nil [] b h = h
or_else-ne-nil (x ∷ xs) b h = λ e. cc

remote_ip-ne-nil : (addr : Bytes) → split_host addr ≢ some [] → remote_ip addr ≢ []
unfolding remote_ip
remote_ip-ne-nil addr h = elim (Option-cases (split_host addr)) [
  | inl failed ↦ rw (failed, remote_ip) (or_else-ne-nil addr (codes "unknown") (λ e. cc))
  | inr (host, found) ↦ rw (found, remote_ip) (λ empty. h (ground arith))
]

-- The client address of a request is not empty, unless the remote address has a port and an empty
-- host.
pub client_ip-ne-nil : (r : Request) → split_host r.remote_addr ≢ some [] → client_ip r ≢ []
unfolding client_ip
client_ip-ne-nil r h = or_else-ne-nil (trim_space (Header.get r.header (codes "Fly-Client-IP"))) _ (
    or_else-ne-nil (forwarded_ip (Header.get r.header (codes "X-Forwarded-For"))) _ (
      or_else-ne-nil (trim_space (Header.get r.header (codes "X-Real-IP"))) _
        (remote_ip-ne-nil r.remote_addr h)))

-- The bytes that `net.SplitHostPort` gives a meaning do not occur.
abbrev pub IsPlain : Bytes → Type 0
IsPlain s = All (λ b. (b ≢ b':') × (b ≢ b'[') × (b ≢ b']')) s

last_index_byte_plain : (s : Bytes) → IsPlain s → last_index_byte b':' s ≡ none
unfolding last_index_byte
last_index_byte_plain [] h = refl
last_index_byte_plain (b ∷ s) (p, h) = ground (arith, last_index_byte_plain s h)

last_index_byte-append :
    (s t : Bytes) → IsPlain t → last_index_byte b':' (s ++ (b':' ∷ t)) ≡ some (length s)
unfolding last_index_byte
last_index_byte-append [] t h = ground (arith, last_index_byte_plain t h)
last_index_byte-append (b ∷ s) t h = ground (arith, last_index_byte-append s t h)

take-length-append : (s t : Bytes) → take (length s) (s ++ t) ≡ s
take-length-append [] t = refl
take-length-append (b ∷ s) t = ap (◌∷◌ b) (take-length-append s t)

has_byte_plain :
    (s : Bytes)
    → IsPlain s
    → (has_byte b':' s ≡ false) × (has_byte b'[' s ≡ false) × (has_byte b']' s ≡ false)
unfolding has_byte
has_byte_plain [] h = (refl, refl, refl)
has_byte_plain (b ∷ s) (p, h) = ground (arith, has_byte_plain s h)

has_byte-append :
    (c : ℕ) (s t : Bytes)
    → has_byte c s ≡ false
    → has_byte c t ≡ false
    → has_byte c (s ++ t) ≡ false
unfolding has_byte
has_byte-append c [] t h k = k
has_byte-append c (b ∷ s) t h k = ground (arith, has_byte-append c s t)

split_host_at-append :
    (b : ℕ) (host port : Bytes)
    → IsPlain (b ∷ host)
    → IsPlain port
    → split_host_at (length (b ∷ host)) ((b ∷ host) ++ (b':' ∷ port)) ≡ some (b ∷ host)
unfolding split_host_at
split_host_at-append b host port h k =
    let (no_colon, no_open, no_close) = has_byte_plain (b ∷ host) h in
    let (_, port_open, port_close) = has_byte_plain port k in
    let open_free : has_byte b'[' ((b ∷ host) ++ (b':' ∷ port)) ≡ false =
      has_byte-append b'[' (b ∷ host) (b':' ∷ port) no_open (unfold has_byte in port_open) in
    let close_free : has_byte b']' ((b ∷ host) ++ (b':' ∷ port)) ≡ false =
      has_byte-append b']' (b ∷ host) (b':' ∷ port) no_close (unfold has_byte in port_close) in
    ground (arith, take-length-append (b ∷ host) (b':' ∷ port))

-- The host of `host:port` comes back, where neither has a colon or a bracket.
pub split_host-append :
    (b : ℕ) (host port : Bytes)
    → IsPlain (b ∷ host)
    → IsPlain port
    → split_host ((b ∷ host) ++ (b':' ∷ port)) ≡ some (b ∷ host)
unfolding split_host
split_host-append b host port h k =
    rw (last_index_byte-append (b ∷ host) port k, split_host) (split_host_at-append b host port h k)

-- Without headers, and with a remote address `host:port` whose host is not empty and where
-- neither part has a colon or a bracket, the client address is that host.
pub client_ip_direct :
    (r : Request) (b : ℕ) (host port : Bytes)
    → IsPlain (b ∷ host)
    → IsPlain port
    → client_ip (record r { header = []; remote_addr = (b ∷ host) ++ (b':' ∷ port) }) ≡ b ∷ host
unfolding client_ip Header.get forwarded_ip trim_space lookup remote_ip
client_ip_direct r b host port h k =
    let host_lem = split_host-append b host port h k in rw (host_lem, remote_ip)
