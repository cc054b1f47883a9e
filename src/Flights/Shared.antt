-- ===== src/Flights/Shared.antt =====
-- The functions that run for the callers of a fetch, and what their answers leave in the cache.
use registry_redirect.Prelude.{
  ℕ, ◌≤◌, ◌≡◌, refl, sym, subst, ◌⊎◌, inl, inr, Bool, true, false, ◌||◌, Bool-cases, Option,
  Option-cases, none, some, List, [], ◌∷◌, Bytes, Bytes-discrete, codes, arith, All, if◌then◌else◌,
  ◌==◌,
}
use registry_redirect.Flights.{
  Group, IsGroup, Phase, looking, asking, System, others, without, join, give, request, look,
  answer, leave, start,
}
use registry_redirect.GoMap.{
  IsMap, lookup, insert, erase, lookup-insert, lookup-erase, insert-IsMap, erase-IsMap,
}
use registry_redirect.Http.{Back, Failure, Outgoing}
use registry_redirect.Paths.{bytes_eq}
use registry_redirect.Redirect.{World, new_backend_request, plain}
use registry_redirect.ResponseCache
use registry_redirect.ResponseCache.{Response}
use registry_redirect.Tokens.{Fetched, fetched, broken, fetch_header, land}
use registry_redirect.Tokens.Cached.{IsGood, IsGood-later, get-IsGood}
use registry_redirect.Tokens.Keeping.{land-IsGood}

pub phase_cases : (o : Option Phase) → (o ≡ none) ⊎ ((o ≡ some looking) ⊎ (o ≡ some asking))
phase_cases none = inl refl
phase_cases (some looking) = inr (inl refl)
phase_cases (some asking) = inr (inr refl)

-- Whether a function runs for a URL.
abbrev pub runs : Bytes → List (Bytes × Phase) → Bool
runs url running = elim (lookup Bytes-discrete url running) [ none ↦ false | some phase ↦ true ]

module _ (g : Group) where
  -- At most one function runs for a URL, the group knows which, and every caller that waits waits for one.
  pub record IsFlying (s : System g) : Type 0 where
    pub once : IsMap Bytes-discrete s.running
    pub grouped : (url : Bytes) → g.in_flight url s.group ≡ runs url s.running
    pub attended : All (λ w. runs w.1 s.running ≡ true) s.waiting

runs-insert :
    (q url : Bytes) (phase : Phase) (running : List (Bytes × Phase))
    → runs q (insert Bytes-discrete url phase running) ≡ (bytes_eq q url || runs q running)
runs-insert q url phase running = ground (arith, lookup-insert Bytes-discrete q url phase running)

runs-erase :
    (q url : Bytes) (running : List (Bytes × Phase))
    → runs q (erase Bytes-discrete url running) ≡ (if bytes_eq q url then false else runs q running)
runs-erase q url running = ground (arith, lookup-erase Bytes-discrete q url running)

runs-cons :
    (q url : Bytes) (phase : Phase) (running : List (Bytes × Phase))
    → runs q ((url, phase) ∷ running) ≡ (bytes_eq q url || runs q running)
unfolding lookup
runs-cons q url phase running = ground arith

attended-cons :
    (url : Bytes) (phase : Phase) (running : List (Bytes × Phase)) (ws : List (ℕ × Bytes))
    → All (λ w. runs w.1 running ≡ true) ws
    → All (λ w. runs w.1 ((url, phase) ∷ running) ≡ true) ws
attended-cons url phase running [] h = tt
attended-cons url phase running ((n, u) ∷ ws) (p, h) =
    (ground (arith, runs-cons u url phase running), attended-cons url phase running ws h)

attended-insert :
    (url : Bytes) (phase : Phase) (running : List (Bytes × Phase)) (ws : List (ℕ × Bytes))
    → All (λ w. runs w.1 running ≡ true) ws
    → All (λ w. runs w.1 (insert Bytes-discrete url phase running) ≡ true) ws
attended-insert url phase running [] h = tt
attended-insert url phase running ((n, u) ∷ ws) (p, h) =
    (ground (arith, runs-insert u url phase running), attended-insert url phase running ws h)

attended-others :
    (url : Bytes) (running : List (Bytes × Phase)) (ws : List (ℕ × Bytes))
    → All (λ w. runs w.1 running ≡ true) ws
    → All (λ w. runs w.1 (erase Bytes-discrete url running) ≡ true) (others url ws)
attended-others url running [] h = tt
attended-others url running ((n, u) ∷ ws) (p, h) = elim (Bool-cases (bytes_eq u url)) [
  | inl same ↦ rw same (attended-others url running ws h)
  | inr other ↦ rw other (rw (runs-erase u url running, other) p, attended-others url running ws h)
]

attended-without :
    (m : ℕ) (running : List (Bytes × Phase)) (ws : List (ℕ × Bytes))
    → All (λ w. runs w.1 running ≡ true) ws
    → All (λ w. runs w.1 running ≡ true) (without m ws)
attended-without m running [] h = tt
attended-without m running ((n, u) ∷ ws) (p, h) = elim (Bool-cases (n == m)) [
  | inl same ↦ rw same (attended-without m running ws h)
  | inr other ↦ rw other (p, attended-without m running ws h)
]

module _ (world : World) (g : Group) (law : IsGroup g) where
  start-IsFlying : (c : Option ResponseCache.Cache) → IsFlying g (start world g c)
  unfolding lookup
  start-IsFlying c = record { once = tt; grouped = λ url. law.idle url; attended = tt }

  join-IsFlying :
      (n : ℕ) (url : Bytes) (s : System g) → IsFlying g s → IsFlying g (join world g n url s)
  unfolding join
  join-IsFlying n url s h = elim (Bool-cases (runs url s.running)) [
    | inl shared ↦
        let follows : (g.do_chan url s.group).1 ≡ false =
          ground (arith, law.leads url s.group, h.grouped url) in
        rw (follows, join)
          (record {
            once = h.once;
            grouped = λ q. ground (arith, law.begun q url s.group, h.grouped q);
            attended = (shared, h.attended);
          })
    | inr alone ↦
        let leads : (g.do_chan url s.group).1 ≡ true =
          ground (arith, law.leads url s.group, h.grouped url) in
        rw (leads, join)
          (record {
            once = (ground arith, h.once);
            grouped = λ q.
                ground
                  (arith, law.begun q url s.group, h.grouped q, runs-cons q url looking s.running);
            attended = (
              ground (arith, runs-cons url url looking s.running),
              attended-cons url looking s.running s.waiting h.attended,
            );
          })
  ]

  give-IsFlying :
      (url : Bytes) (f : Fetched) (s : System g) → IsFlying g s → IsFlying g (give world g url f s)
  unfolding give
  give-IsFlying url f s h = record {
    once = erase-IsMap Bytes-discrete url s.running h.once;
    grouped = λ q. ground (arith, law.ended q url s.group, h.grouped q, runs-erase q url s.running);
    attended = attended-others url s.running s.waiting h.attended;
  }

  request-IsFlying :
      (made : Bytes ⊎ Outgoing) (url : Bytes) (s : System g)
      → runs url s.running ≡ true
      → IsFlying g s
      → IsFlying g (request world g made url s) × ((request world g made url s).cache ≡ s.cache)
  unfolding request give
  request-IsFlying (inl text) url s running h = (give-IsFlying url (broken (plain text)) s h, refl)
  request-IsFlying (inr out) url s running h = (
    record {
      once = insert-IsMap Bytes-discrete url asking s.running h.once;
      grouped = λ q. ground (arith, h.grouped q, runs-insert q url asking s.running);
      attended = attended-insert url asking s.running s.waiting h.attended;
    },
    refl,
  )

  with_cache-IsFlying :
      (s : System g) (c : Option ResponseCache.Cache)
      → IsFlying g s
      → IsFlying g (record s { cache = c })
  with_cache-IsFlying s c h = record { once = h.once; grouped = h.grouped; attended = h.attended }

  -- The invariant at a time.
  pub record IsShared (now : ℕ) (s : System g) : Type 0 where
    pub flying : IsFlying g s
    pub good : IsGood world now s.cache

  pub look-IsShared :
      (now : ℕ) (url : Bytes) (s : System g)
      → IsShared now s
      → IsShared now (look world g now url s)
  unfolding look give
  look-IsShared now url s h = elim (phase_cases (lookup Bytes-discrete url s.running)) [
    | inl idle ↦ rw (idle, look) h
    | inr (inr other) ↦ rw (other, look) h
    | inr (inl here) ↦
        let c = (ResponseCache.get now url s.cache).0 in
        let good = get-IsGood world now url s.cache h.good in
        let flying = with_cache-IsFlying s c h.flying in
        elim (Option-cases (ResponseCache.get now url s.cache).1) [
          | inr (e, hit) ↦
              rw (here, look, hit)
                (record {
                  flying = give-IsFlying url (fetched e) (record s { cache = c }) flying;
                  good = good;
                })
          | inl miss ↦
              let (sent, same) =
                request-IsFlying (new_backend_request world (codes "GET") url fetch_header) url
                  (record s { cache = c }) (rw (here, runs) refl) flying in
              rw (here, look, miss)
                (record { flying = sent; good = subst (IsGood world now) (sym same) good })
        ]
  ]

  pub answer-IsShared :
      (later : ℕ) (url : Bytes) (back : Back) (s : System g)
      → IsShared later s
      → IsShared later (answer world g later url back s)
  unfolding answer give
  answer-IsShared later url back s h = elim (phase_cases (lookup Bytes-discrete url s.running)) [
    | inl idle ↦ rw (idle, answer) h
    | inr (inl other) ↦ rw (other, answer) h
    | inr (inr here) ↦
        let c = (land world later url back s.cache).0 in
        rw (here, answer)
          (record {
            flying =
                give-IsFlying url (land world later url back s.cache).1 (record s { cache = c })
                  (with_cache-IsFlying s c h.flying);
            good = land-IsGood world later url back s.cache h.good;
          })
  ]

  leave-IsShared :
      (now n : ℕ) (f : Failure) (s : System g) → IsShared now s → IsShared now (leave world g n f s)
  unfolding leave
  leave-IsShared now n f s h = record {
    flying = record {
      once = h.flying.once;
      grouped = h.flying.grouped;
      attended = attended-without n s.running s.waiting h.flying.attended;
    };
    good = h.good;
  }

  join-IsShared :
      (now n : ℕ) (url : Bytes) (s : System g)
      → IsShared now s
      → IsShared now (join world g n url s)
  unfolding join
  join-IsShared now n url s h = record { flying = join-IsFlying n url s h.flying; good = h.good }

  -- The states that the accesses of any callers lead to, in any order, at times that do not decrease.
  pub data Reached (c : Option ResponseCache.Cache) : ℕ → System g → Type 0 where
    begin : (now : ℕ) → Reached c now (start world g c)
    waits : (now later : ℕ) (s : System g) → now ≤ later → Reached c now s → Reached c later s
    joins :
        (now n : ℕ) (url : Bytes) (s : System g)
        → Reached c now s
        → Reached c now (join world g n url s)
    looks :
        (now : ℕ) (url : Bytes) (s : System g)
        → Reached c now s
        → Reached c now (look world g now url s)
    answers :
        (now : ℕ) (url : Bytes) (back : Back) (s : System g)
        → Reached c now s
        → Reached c now (answer world g now url back s)
    leaves :
        (now n : ℕ) (f : Failure) (s : System g)
        → Reached c now s
        → Reached c now (leave world g n f s)

  -- Where the group keeps singleflight's promise, and the cache starts with nothing but tokens to be read:
  -- however the accesses interleave, and whatever the registry answers, no two of the functions that run
  -- are for the same URL, the group knows for which URLs one runs, every caller that waits waits for one
  -- that runs, and only answers with the status 200 and a token can be read from the cache.
  pub Reached-IsShared :
      (c : Option ResponseCache.Cache) (now : ℕ) (s : System g)
      → ((t : ℕ) → IsGood world t c)
      → Reached c now s
      → IsShared now s
  Reached-IsShared c _ _ h (begin now) = record { flying = start-IsFlying c; good = h now }
  Reached-IsShared c _ _ h (waits now later s le before) =
      let k = Reached-IsShared c now s h before in
      record { flying = k.flying; good = IsGood-later world now later s.cache le k.good }
  Reached-IsShared c _ _ h (joins now n url s before) =
      join-IsShared now n url s (Reached-IsShared c now s h before)
  Reached-IsShared c _ _ h (looks now url s before) =
      look-IsShared now url s (Reached-IsShared c now s h before)
  Reached-IsShared c _ _ h (answers now url back s before) =
      answer-IsShared now url back s (Reached-IsShared c now s h before)
  Reached-IsShared c _ _ h (leaves now n f s before) =
      leave-IsShared now n f s (Reached-IsShared c now s h before)
