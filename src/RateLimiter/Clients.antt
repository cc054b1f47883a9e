-- ===== src/RateLimiter/Clients.antt =====
-- The client map of pkg/redirect/rate_limiter.go and the removal of its oldest entry.
use registry_redirect.Prelude.{
  ℕ, zero, suc, ◌+◌, Bool, ◌||◌, Option, none, some, List, [], ◌∷◌, Bytes, Bytes-discrete, ltb, leb,
  if◌then◌else◌, length,
}
use registry_redirect.GoMap.{erase}
use registry_redirect.Paths.{bytes_eq}

-- `ipLimiter`, over the type of the limiters.
pub record Client (L : Type 0) : Type 0 where
  pub limiter : L
  pub last_seen : ℕ

module _ {L : Type 0} where
  -- `now.Sub(client.lastSeen) >= l.opts.IdleTTL`.
  abbrev pub is_idle : ℕ → ℕ → Client L → Bool
  is_idle idle_ttl now c = leb (c.last_seen + idle_ttl) now

  -- The loop of `removeOldest`, from the address and the time found so far. The empty address
  -- stands for none.
  unfoldable pub oldest_from : Bytes → ℕ → List (Bytes × Client L) → Bytes
  oldest_from oldest_ip oldest [] = oldest_ip
  oldest_from oldest_ip oldest ((ip, c) ∷ m) =
      let earlier = bytes_eq oldest_ip [] || ltb c.last_seen oldest in
      oldest_from (if earlier then ip else oldest_ip) (if earlier then c.last_seen else oldest) m

  unfoldable pub remove_oldest : List (Bytes × Client L) → List (Bytes × Client L)
  remove_oldest clients =
      let oldest_ip = oldest_from [] 0 clients in
      if bytes_eq oldest_ip [] then clients else erase Bytes-discrete oldest_ip clients

  -- `for len(l.clients) >= l.opts.MaxIPs { l.removeOldest() }`; `none` when the fuel runs out.
  unfoldable pub evict : ℕ → ℕ → List (Bytes × Client L) → Option (List (Bytes × Client L))
  evict max_ips zero m = if leb max_ips (length m) then none else some m
  evict max_ips (suc fuel) m =
      let rest = evict max_ips fuel (remove_oldest m) in
      if leb max_ips (length m) then rest else some m
