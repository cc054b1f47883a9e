-- ===== src/Flights/Served.antt =====
-- The callers that wait, and the two steps of the fetch for their URL.
use registry_redirect.Prelude.{
  ℕ, ◌≡◌, refl, subst, ◌⊎◌, inl, inr, Bool, true, false, ◌||◌, ◌&&◌, Bool-cases, Option,
  Option-cases, none, some, List, [], ◌∷◌, ◌++◌, Bytes, Bytes-discrete, codes, arith, All, ◌==◌,
}
use registry_redirect.Flights.{
  Group, IsGroup, Phase, asking, System, waits_for, give, request, look, answer,
}
use registry_redirect.Flights.Shared.{runs, IsFlying, phase_cases, Reached, Reached-IsShared}
use registry_redirect.GoMap.{lookup, insert, erase, lookup-erase, lookup-insert_self}
use registry_redirect.Http.{Back, Outgoing}
use registry_redirect.Paths.{bytes_eq}
use registry_redirect.Redirect.{World, new_backend_request, plain}
use registry_redirect.ResponseCache
use registry_redirect.Tokens.{Fetched, fetched, broken, fetch_header, land}
use registry_redirect.Tokens.Cached.{IsGood}

-- A caller waits for a URL.
abbrev pub is_waiting : ℕ → Bytes → List (ℕ × Bytes) → Bool
is_waiting n url [] = false
is_waiting n url ((m, u) ∷ ws) = m == n && bytes_eq u url || is_waiting n url ws

-- A caller has a result.
abbrev pub has_result : ℕ → List (ℕ × Fetched) → Bool
has_result n [] = false
has_result n ((m, f) ∷ rs) = m == n || has_result n rs

has_result-waits_for :
    (n : ℕ) (url : Bytes) (ws : List (ℕ × Bytes)) (f : Fetched) (rs : List (ℕ × Fetched))
    → is_waiting n url ws ≡ true
    → has_result n (waits_for url ws f ++ rs) ≡ true
has_result-waits_for n url [] f rs h = absurd (ground arith)
has_result-waits_for n url ((m, u) ∷ ws) f rs h = elim (Bool-cases (bytes_eq u url)) [
  | inl same ↦ rw same (ground (arith, has_result-waits_for n url ws f rs))
  | inr other ↦ rw other (has_result-waits_for n url ws f rs (ground arith))
]

runs-waiting :
    (n : ℕ) (url : Bytes) (running : List (Bytes × Phase)) (ws : List (ℕ × Bytes))
    → All (λ w. runs w.1 running ≡ true) ws
    → is_waiting n url ws ≡ true
    → runs url running ≡ true
runs-waiting n url running [] h k = absurd (ground arith)
runs-waiting n url running ((m, u) ∷ ws) (p, h) k = elim (Bool-cases (m == n && bytes_eq u url)) [
  | inl here ↦ let same : u ≡ url = ground arith in subst (λ x. runs x running ≡ true) same p
  | inr there ↦ runs-waiting n url running ws h (ground arith)
]

module _ (world : World) (g : Group) where
  give-has_result :
      (n : ℕ) (url : Bytes) (f : Fetched) (s : System g)
      → is_waiting n url s.waiting ≡ true
      → has_result n (give world g url f s).results ≡ true
  unfolding give
  give-has_result n url f s h = has_result-waits_for n url s.waiting f s.results h

  -- An answer that comes after the end changes nothing.
  answer-give :
      (later : ℕ) (url : Bytes) (back : Back) (f : Fetched) (s : System g)
      → answer world g later url back (give world g url f s) ≡ give world g url f s
  unfolding answer give
  answer-give later url back f s =
      let ended : lookup Bytes-discrete url (erase Bytes-discrete url s.running) ≡ none =
        ground (arith, lookup-erase Bytes-discrete url url s.running) in
      rw (ended, answer) refl

  answer-has_result :
      (later n : ℕ) (url : Bytes) (back : Back) (s : System g)
      → lookup Bytes-discrete url s.running ≡ some asking
      → is_waiting n url s.waiting ≡ true
      → has_result n (answer world g later url back s).results ≡ true
  unfolding answer
  answer-has_result later n url back s here h =
      rw (here, answer)
        (give-has_result n url (land world later url back s.cache).1
          (record s { cache = (land world later url back s.cache).0 }) h)

  answer-request :
      (later n : ℕ) (url : Bytes) (back : Back) (made : Bytes ⊎ Outgoing) (s : System g)
      → is_waiting n url s.waiting ≡ true
      → has_result n (answer world g later url back (request world g made url s)).results ≡ true
  unfolding request
  answer-request later n url back (inl text) s h =
      rw (answer-give later url back (broken (plain text)) s)
        (give-has_result n url (broken (plain text)) s h)
  answer-request later n url back (inr out) s h =
      answer-has_result later n url back
        (record s { running = insert Bytes-discrete url asking s.running })
        (lookup-insert_self Bytes-discrete url asking s.running) h

module _ (world : World) (g : Group) (law : IsGroup g) where
  served :
      (now later n : ℕ) (url : Bytes) (back : Back) (s : System g)
      → IsFlying g s
      → is_waiting n url s.waiting ≡ true
      → has_result n (answer world g later url back (look world g now url s)).results ≡ true
  unfolding look
  served now later n url back s h waiting =
      let running = runs-waiting n url s.running s.waiting h.attended waiting in
      elim (phase_cases (lookup Bytes-discrete url s.running)) [
        | inl idle ↦ absurd (ground arith)
        | inr (inr here) ↦
            rw (here, look) (answer-has_result world g later n url back s here waiting)
        | inr (inl here) ↦
            let looked : System g = record s { cache = (ResponseCache.get now url s.cache).0 } in
            elim (Option-cases (ResponseCache.get now url s.cache).1) [
              | inr (e, hit) ↦
                  rw (here, look, hit, answer-give world g later url back (fetched e) looked)
                    (give-has_result world g n url (fetched e) looked waiting)
              | inl miss ↦
                  rw (here, look, miss)
                    (answer-request world g later n url back
                      (new_backend_request world (codes "GET") url fetch_header) looked waiting)
            ]
      ]

  -- In every state that the accesses of any callers lead to, a caller that waits has a result as soon as
  -- the fetch for its URL has looked into the cache and the registry has answered, whatever it answers.
  pub Reached-has_result :
      (c : Option ResponseCache.Cache) (now later n : ℕ) (url : Bytes) (back : Back) (s : System g)
      → ((t : ℕ) → IsGood world t c)
      → Reached world g law c now s
      → is_waiting n url s.waiting ≡ true
      → has_result n (answer world g later url back (look world g now url s)).results ≡ true
  Reached-has_result c now later n url back s h reached waiting =
      served now later n url back s (Reached-IsShared world g law c now s h reached).flying waiting
