-- ===== src/RateLimiter/Bounds.antt =====
-- The limiter answers every request from a named client and never keeps more clients than allowed.
use native.Mathlib.Nat.{le_refl}
use registry_redirect.Prelude.{
  ℕ, ◌+◌, ◌≤◌, ◌<◌, ◌≡◌, ◌≢◌, refl, ◌∙◌, Bool, true, none, some, List, [], ◌∷◌, Bytes,
  Bytes-discrete, arith, leb, length, Bool-cases, Option-cases, inl, inr, is_pos,
}
use registry_redirect.GoMap.{
  IsMap, lookup, insert, sweep, insert-IsMap, sweep-IsMap, length-sweep-le, length-insert_new,
  length-insert_old, lookup-insert_self,
}
use registry_redirect.RateLimiter.Clients.{Client, is_idle}
use registry_redirect.RateLimiter.Deps.{Deps}
use registry_redirect.RateLimiter.Oldest.{IsNamed, IsEvicted, evict-IsEvicted}
use registry_redirect.RateLimiter.State.{
  IpRateLimiter, LimiterOptions, new_ip_rate_limiter, minute, remove_idle, trim_idle, sweep_full,
  make_room, client_for, client, charge, allow,
}

module _ {L : Type 0} where
  insert-IsNamed :
      (k : Bytes) (c : Client L) (m : List (Bytes × Client L))
      → k ≢ []
      → IsNamed m
      → IsNamed (insert Bytes-discrete k c m)
  unfolding insert
  insert-IsNamed k c [] p h = (p, tt)
  insert-IsNamed k c ((j, d) ∷ m) p (q, h) = ground (arith, insert-IsNamed k c m p h)

  sweep-IsNamed :
      (drop : Bytes → Client L → Bool) (m : List (Bytes × Client L))
      → IsNamed m
      → IsNamed (sweep drop m)
  unfolding sweep
  sweep-IsNamed drop [] h = tt
  sweep-IsNamed drop ((j, d) ∷ m) (q, h) = ground (arith, sweep-IsNamed drop m h)

  -- A client map within the cap, in which every client has a name.
  pub record IsBounded (max_ips : ℕ) (m : List (Bytes × Client L)) : Type 0 where
    pub is_map : IsMap Bytes-discrete m
    pub named : IsNamed m
    pub capped : length m ≤ max_ips

  pub sweep-IsBounded :
      (max_ips : ℕ) (drop : Bytes → Client L → Bool) (m : List (Bytes × Client L))
      → IsBounded max_ips m
      → IsBounded max_ips (sweep drop m)
  sweep-IsBounded max_ips drop m h = record {
    is_map = sweep-IsMap Bytes-discrete drop m h.is_map;
    named = sweep-IsNamed drop m h.named;
    capped = omega (arith, length-sweep-le drop m, h.capped);
  }

  -- An assignment keeps the bound where the client is there already or there is room.
  pub insert-IsBounded :
      (max_ips : ℕ) (k : Bytes) (c : Client L) (m : List (Bytes × Client L))
      → k ≢ []
      → IsBounded max_ips m
      → (lookup Bytes-discrete k m ≡ none → length m < max_ips)
      → IsBounded max_ips (insert Bytes-discrete k c m)
  insert-IsBounded max_ips k c m p h room = record {
    is_map = insert-IsMap Bytes-discrete k c m h.is_map;
    named = insert-IsNamed k c m p h.named;
    capped = elim (Option-cases (lookup Bytes-discrete k m)) [
      | inl new ↦ omega (arith, length-insert_new Bytes-discrete k c m new, room new)
      | inr (d, old) ↦ omega (arith, length-insert_old Bytes-discrete k c d m old, h.capped)
    ];
  }

module _ (deps : Deps) where
  open deps use {Limiter}

  pub record IsValid (l : IpRateLimiter deps) : Type 0 where
    pub positive : 0 < l.max_ips
    pub bounded : IsBounded l.max_ips l.clients

  -- A new limiter is valid if the options leave room for a client.
  pub new_ip_rate_limiter-IsValid :
      (o : LimiterOptions deps) → is_pos o.max_ips ≡ true → IsValid (new_ip_rate_limiter deps o)
  unfolding new_ip_rate_limiter
  new_ip_rate_limiter-IsValid o h = record {
    positive = ground arith;
    bounded = record { is_map = tt; named = tt; capped = omega arith };
  }

  trim_idle-IsValid :
      (now : ℕ) (l : IpRateLimiter deps) → IsValid l → IsValid (trim_idle deps now l)
  unfolding trim_idle remove_idle
  trim_idle-IsValid now l h =
      let swept = sweep-IsBounded l.max_ips (λ _ c. is_idle l.idle_ttl now c) l.clients h.bounded in
      elim (Option-cases l.last_trim) [
        | inl never ↦ rw (never, trim_idle) (record { positive = h.positive; bounded = swept })
        | inr (t, before) ↦ elim (Bool-cases (leb (t + minute) now)) [
          | inl due ↦
              rw (before, trim_idle, due) (record { positive = h.positive; bounded = swept })
          | inr early ↦ rw (before, trim_idle, early) h
        ]
      ]

  sweep_full-IsBounded :
      (now : ℕ) (l : IpRateLimiter deps) → IsValid l → IsBounded l.max_ips (sweep_full deps now l)
  unfolding sweep_full remove_idle
  sweep_full-IsBounded now l h = elim (Bool-cases (leb l.max_ips (length l.clients))) [
    | inl full ↦ rw (full, sweep_full) (sweep-IsBounded l.max_ips _ l.clients h.bounded)
    | inr space ↦ rw (space, sweep_full) h.bounded
  ]

  make_room-IsEvicted :
      (now : ℕ) (l : IpRateLimiter deps)
      → IsValid l
      → (m : List (Bytes × Client Limiter)) × (make_room deps now l ≡ some m)
        × IsEvicted l.max_ips (sweep_full deps now l) m
  unfolding make_room
  make_room-IsEvicted now l h =
      let b = sweep_full-IsBounded now l h in
      evict-IsEvicted l.max_ips (length (sweep_full deps now l)) (sweep_full deps now l) h.positive
        (le_refl _) b.is_map b.named

  -- What a call about an address leaves: a valid limiter that holds the address, with the tracker
  -- and the cap as they were.
  pub record IsServed (ip : Bytes) (l l' : IpRateLimiter deps) : Type 0 where
    pub valid : IsValid l'
    pub present : lookup Bytes-discrete ip l'.clients ≢ none
    pub tracker : l'.limited_ips ≡ l.limited_ips
    pub cap : l'.max_ips ≡ l.max_ips

  insert-IsServed :
      (ip : Bytes) (c : Client Limiter) (m : List (Bytes × Client Limiter)) (l : IpRateLimiter deps)
      → ip ≢ []
      → 0 < l.max_ips
      → IsBounded l.max_ips m
      → (lookup Bytes-discrete ip m ≡ none → length m < l.max_ips)
      → IsServed ip l (record l { clients = insert Bytes-discrete ip c m })
  insert-IsServed ip c m l p positive b room = record {
    valid = record { positive = positive; bounded = insert-IsBounded l.max_ips ip c m p b room };
    present = λ h. absurd (ground (arith, lookup-insert_self Bytes-discrete ip c m));
    tracker = refl;
    cap = refl;
  }

  client_for-IsServed :
      (ip : Bytes) (now : ℕ) (l : IpRateLimiter deps)
      → ip ≢ []
      → IsValid l
      → (l' : IpRateLimiter deps) × (c : Limiter) × (client_for deps ip now l ≡ some (l', c))
        × IsServed ip l l'
  unfolding client_for
  client_for-IsServed ip now l p h = elim (Option-cases (lookup Bytes-discrete ip l.clients)) [
    | inr (c, old) ↦
        rw (old, client_for)
          (
            _,
            c.limiter,
            refl,
            insert-IsServed ip _ l.clients l p h.positive h.bounded (λ new. absurd (ground arith)),
          )
    | inl new ↦
        let (m, made, e) = make_room-IsEvicted now l h in
        let b : IsBounded l.max_ips m = record {
          is_map = e.is_map;
          named = e.named;
          capped = omega (arith, e.room);
        } in
        rw (new, client_for, made)
          (_, _, refl, insert-IsServed ip _ m l p h.positive b (λ _. e.room))
  ]

  trim_idle-same :
      (now : ℕ) (l : IpRateLimiter deps)
      → ((trim_idle deps now l).limited_ips ≡ l.limited_ips)
        × ((trim_idle deps now l).max_ips ≡ l.max_ips)
  unfolding trim_idle remove_idle
  trim_idle-same now l = ground arith

  -- From a valid limiter, `client` returns for every address but the empty one. The limiter that
  -- it leaves is valid, so that it holds at most `MaxIPs` clients and none twice; it holds the
  -- address, and its tracker and its cap are as they were.
  pub client-IsServed :
      (ip : Bytes) (now : ℕ) (l : IpRateLimiter deps)
      → ip ≢ []
      → IsValid l
      → (l' : IpRateLimiter deps) × (c : Limiter) × (client deps ip now l ≡ some (l', c))
        × IsServed ip l l'
  unfolding client
  client-IsServed ip now l p h =
      let (l', c, answer, s) =
        client_for-IsServed ip now (trim_idle deps now l) p (trim_idle-IsValid now l h) in
      let (tracker, cap) = trim_idle-same now l in
      (
        l',
        c,
        answer,
        record {
          valid = s.valid;
          present = s.present;
          tracker = s.tracker ∙ tracker;
          cap = s.cap ∙ cap;
        },
      )

  -- So does `allow`, whatever the bucket answers.
  pub allow-IsServed :
      (ip : Bytes) (now : ℕ) (l : IpRateLimiter deps)
      → ip ≢ []
      → IsValid l
      → (l' : IpRateLimiter deps) × (b : Bool) × (allow deps ip now l ≡ some (l', b))
        × IsServed ip l l'
  unfolding allow
  allow-IsServed ip now l p h =
      let (l', c, answer, s) = client-IsServed ip now l p h in
      let charged : IsServed ip l' (charge deps ip now l' c).0 =
        unfold charge in
        insert-IsServed ip _ l'.clients l' p s.valid.positive s.valid.bounded
          (λ new. absurd (s.present new)) in
      (
        (charge deps ip now l' c).0,
        (charge deps ip now l' c).1,
        rw (answer, allow),
        record {
          valid = charged.valid;
          present = charged.present;
          tracker = charged.tracker ∙ s.tracker;
          cap = charged.cap ∙ s.cap;
        },
      )
