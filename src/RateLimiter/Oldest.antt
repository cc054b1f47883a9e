-- ===== src/RateLimiter/Oldest.antt =====
-- Which client gives way to a new one, and the loop that makes room.
use registry_redirect.Prelude.{
  ℕ, zero, suc, ◌≤◌, ◌<◌, ◌≡◌, ◌≢◌, refl, true, false, ◌||◌, none, some, List, [], ◌∷◌, All, Bytes,
  Bytes-discrete, arith, ltb, leb, leb→le, length, Bool-cases, inl, inr,
}
use registry_redirect.GoMap.{IsMap, lookup, erase, erase-IsMap, lookup-erase, length-erase}
use registry_redirect.Paths.{bytes_eq}
use registry_redirect.RateLimiter.Clients.{Client, oldest_from, remove_oldest, evict}

module _ {L : Type 0} where
  -- No client has the empty address.
  abbrev pub IsNamed : List (Bytes × Client L) → Type 0
  IsNamed m = All (λ kv. kv.0 ≢ []) m

  -- All clients were last seen at this time or later.
  abbrev pub IsSince : ℕ → List (Bytes × Client L) → Type 0
  IsSince t m = All (λ kv. t ≤ kv.1.last_seen) m

  pub record IsOldest (m : List (Bytes × Client L)) (ip : Bytes) : Type 0 where
    pub seen : Client L
    pub listed : lookup Bytes-discrete ip m ≡ some seen
    pub since : IsSince seen.last_seen m

  IsSince-weaken : (s t : ℕ) (m : List (Bytes × Client L)) → s ≤ t → IsSince t m → IsSince s m
  IsSince-weaken s t [] h k = tt
  IsSince-weaken s t (kv ∷ m) h (p, k) = (omega arith, IsSince-weaken s t m h k)

  -- What the loop ends with, from an address and a time: these, or an older client of the map.
  data Found (m : List (Bytes × Client L)) (a : Bytes) (t : ℕ) (r : Bytes) : Type 0 where
    start : r ≡ a → IsSince t m → Found m a t r
    older :
        (c : Client L)
        → lookup Bytes-discrete r m ≡ some c
        → IsSince c.last_seen m
        → c.last_seen ≤ t
        → Found m a t r

  Found-first :
      (m : List (Bytes × Client L)) (ip : Bytes) (c : Client L) (a : Bytes) (t : ℕ) (r : Bytes)
      → lookup Bytes-discrete ip m ≡ none
      → c.last_seen ≤ t
      → Found m ip c.last_seen r
      → Found ((ip, c) ∷ m) a t r
  unfolding lookup
  Found-first m ip c a t r new h (start same since) = older c (ground arith) (omega arith, since) h
  Found-first m ip c a t r new h (older d listed since le) =
      older d (ground arith) (le, since) (omega arith)

  Found-next :
      (m : List (Bytes × Client L)) (ip : Bytes) (c : Client L) (a : Bytes) (t : ℕ) (r : Bytes)
      → lookup Bytes-discrete ip m ≡ none
      → t ≤ c.last_seen
      → Found m a t r
      → Found ((ip, c) ∷ m) a t r
  unfolding lookup
  Found-next m ip c a t r new h (start same since) = start same (h, since)
  Found-next m ip c a t r new h (older d listed since le) =
      older d (ground arith) (omega arith, since) le

  oldest_from-Found :
      (a : Bytes) (t : ℕ) (m : List (Bytes × Client L))
      → a ≢ []
      → IsMap Bytes-discrete m
      → IsNamed m
      → Found m a t (oldest_from a t m)
  unfolding oldest_from
  oldest_from-Found a t [] h u v = start refl tt
  oldest_from-Found a t ((ip, c) ∷ m) h (new, u) (named, v) =
      elim (Bool-cases (bytes_eq a [] || ltb c.last_seen t)) [
        | inl earlier ↦
            rw (earlier, oldest_from)
              (Found-first m ip c a t _ new (ground arith)
                (oldest_from-Found ip c.last_seen m named u v))
        | inr later ↦
            rw (later, oldest_from)
              (Found-next m ip c a t _ new (ground arith) (oldest_from-Found a t m h u v))
      ]

  IsOldest-cons :
      (m : List (Bytes × Client L)) (ip : Bytes) (c : Client L) (r : Bytes)
      → lookup Bytes-discrete ip m ≡ none
      → Found m ip c.last_seen r
      → IsOldest ((ip, c) ∷ m) r
  unfolding lookup
  IsOldest-cons m ip c r new (start same since) = record {
    seen = c;
    listed = ground arith;
    since = (omega arith, since);
  }
  IsOldest-cons m ip c r new (older d listed since le) = record {
    seen = d;
    listed = ground arith;
    since = (le, since);
  }

  IsNamed-lookup :
      (q : Bytes) (c : Client L) (m : List (Bytes × Client L))
      → IsNamed m
      → lookup Bytes-discrete q m ≡ some c
      → q ≢ []
  unfolding lookup
  IsNamed-lookup q c [] h found = absurd (ground arith)
  IsNamed-lookup q c ((j, d) ∷ m) (named, h) found = ground (arith, IsNamed-lookup q c m h)

  -- Where the map has a client and no client has the empty address, `removeOldest` takes one
  -- client out, and every other was last seen at the same time or later.
  pub remove_oldest-IsOldest :
      (m : List (Bytes × Client L))
      → 0 < length m
      → IsMap Bytes-discrete m
      → IsNamed m
      → (ip : Bytes) × IsOldest m ip × (remove_oldest m ≡ erase Bytes-discrete ip m)
  unfolding remove_oldest oldest_from
  remove_oldest-IsOldest [] h u v = absurd (omega arith)
  remove_oldest-IsOldest ((ip, c) ∷ m) h (new, u) (named, v) =
      let r = oldest_from ip c.last_seen m in
      let is_oldest = IsOldest-cons m ip c r new (oldest_from-Found ip c.last_seen m named u v) in
      let has_name : r ≢ [] =
        IsNamed-lookup r is_oldest.seen ((ip, c) ∷ m) (named, v) is_oldest.listed in
      let none_yet : bytes_eq [] [] ≡ true = unfold Bytes-discrete in refl in
      let found : bytes_eq r [] ≡ false = ground arith in
      (r, is_oldest, rw (none_yet, remove_oldest, oldest_from) (rw found))

  -- What the eviction loop leaves: room for one more, clients of the map as they were, and none
  -- that was seen earlier than one that is gone.
  pub record IsEvicted (max_ips : ℕ) (m m' : List (Bytes × Client L)) : Type 0 where
    pub is_map : IsMap Bytes-discrete m'
    pub named : IsNamed m'
    pub room : length m' < max_ips
    pub kept :
        (q : Bytes) (c : Client L)
        → lookup Bytes-discrete q m' ≡ some c
        → lookup Bytes-discrete q m ≡ some c
    pub gone :
        (q k : Bytes) (c d : Client L)
        → lookup Bytes-discrete q m ≡ some c
        → lookup Bytes-discrete q m' ≡ none
        → lookup Bytes-discrete k m' ≡ some d
        → c.last_seen ≤ d.last_seen

  erase-IsNamed :
      (k : Bytes) (m : List (Bytes × Client L)) → IsNamed m → IsNamed (erase Bytes-discrete k m)
  unfolding erase
  erase-IsNamed k [] h = tt
  erase-IsNamed k ((j, c) ∷ m) (p, h) = ground (arith, erase-IsNamed k m h)

  IsSince-lookup :
      (t : ℕ) (k : Bytes) (d : Client L) (m : List (Bytes × Client L))
      → IsSince t m
      → lookup Bytes-discrete k m ≡ some d
      → t ≤ d.last_seen
  unfolding lookup
  IsSince-lookup t k d [] h found = absurd (ground arith)
  IsSince-lookup t k d ((j, c) ∷ m) (p, h) found = ground (arith, IsSince-lookup t k d m h)

  IsEvicted-stop :
      (max_ips : ℕ) (m : List (Bytes × Client L))
      → IsMap Bytes-discrete m
      → IsNamed m
      → leb max_ips (length m) ≡ false
      → IsEvicted max_ips m m
  IsEvicted-stop max_ips m u v stop = record {
    is_map = u;
    named = v;
    room = ground arith;
    kept = λ q c h. h;
    gone = λ q k c d h out inside. absurd (ground arith);
  }

  IsEvicted-round :
      (max_ips : ℕ) (ip : Bytes) (m m' : List (Bytes × Client L))
      → IsMap Bytes-discrete m
      → IsOldest m ip
      → IsEvicted max_ips (erase Bytes-discrete ip m) m'
      → IsEvicted max_ips m m'
  IsEvicted-round max_ips ip m m' u o e = record {
    is_map = e.is_map;
    named = e.named;
    room = e.room;
    kept = λ q c h. ground (arith, e.kept q c h, lookup-erase Bytes-discrete q ip m);
    gone = λ q k c d h out inside.
        let still : lookup Bytes-discrete k m ≡ some d =
          ground (arith, e.kept k d inside, lookup-erase Bytes-discrete k ip m) in
        let least = IsSince-lookup o.seen.last_seen k d m o.since still in
        ground (arith, lookup-erase Bytes-discrete q ip m, e.gone q k c d, o.listed);
  }

  -- Where the cap is above 0, no client has the empty address and there is fuel for one round per
  -- client, the eviction loop ends. It leaves fewer clients than the cap, each as it was, and
  -- none that was last seen earlier than one that is gone.
  pub evict-IsEvicted :
      (max_ips fuel : ℕ) (m : List (Bytes × Client L))
      → 0 < max_ips
      → length m ≤ fuel
      → IsMap Bytes-discrete m
      → IsNamed m
      → (m' : List (Bytes × Client L)) × (evict max_ips fuel m ≡ some m') × IsEvicted max_ips m m'
  unfolding evict
  evict-IsEvicted max_ips zero m pos room u v =
      let stop : leb max_ips (length m) ≡ false = ground arith in
      (m, rw (stop, evict) refl, IsEvicted-stop max_ips m u v stop)
  evict-IsEvicted max_ips (suc fuel) m pos room u v = elim (Bool-cases (leb max_ips (length m))) [
    | inr stop ↦ (m, rw (stop, evict) refl, IsEvicted-stop max_ips m u v stop)
    | inl more ↦
        let (ip, is_oldest, removed) =
          remove_oldest-IsOldest m (omega (arith, leb→le _ _ more)) u v in
        let shorter = length-erase Bytes-discrete ip is_oldest.seen m u is_oldest.listed in
        let (m', done, e) =
          evict-IsEvicted max_ips fuel (erase Bytes-discrete ip m) pos (omega arith)
            (erase-IsMap Bytes-discrete ip m u) (erase-IsNamed ip m v) in
        (m', rw (more, evict, removed) done, IsEvicted-round max_ips ip m m' u is_oldest e)
  ]

  -- With a cap of 1 and one client, at the empty address, the eviction loop ends for no amount of
  -- fuel: the empty address also stands for no client, so that nothing is ever removed.
  pub evict_stuck : (fuel : ℕ) (c : Client L) → evict 1 fuel (([], c) ∷ []) ≡ none
  unfolding evict remove_oldest oldest_from Bytes-discrete
  evict_stuck zero c = refl
  evict_stuck (suc fuel) c = evict_stuck fuel c
