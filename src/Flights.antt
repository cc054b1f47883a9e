-- ===== src/Flights.antt =====
-- How the fetches of anonymous tokens interleave: `fetchAnonymousToken` of
-- pkg/redirect/anonymous_token.go, one step for each of its accesses to the shared state. The group of
-- golang.org/x/sync/singleflight is the argument `Group`. A step that is not enabled leaves the state.
pub mod Shared
pub mod Served
mod Tests
use registry_redirect.Prelude.{
  ℕ, Bool, true, false, not, ◌||◌, Option, none, some, List, [], ◌∷◌, ◌++◌, Bytes, Bytes-discrete,
  codes, ◌⊎◌, inl, inr, ◌==◌, if◌then◌else◌, ◌≡◌, ite,
}
use registry_redirect.GoMap.{lookup, insert, erase}
use registry_redirect.Http.{Back, Failure, Outgoing}
use registry_redirect.Paths.{bytes_eq}
use registry_redirect.Redirect.{World, new_backend_request, plain}
use registry_redirect.ResponseCache
use registry_redirect.Tokens.{Fetched, fetched, broken, fetch_header, land}

-- A group of calls: whether a function runs for a key, `DoChan`, which says whether it starts its
-- function, and the return of a function.
pub record Group : Type 1 where
  pub State : Type 0
  pub new : State
  pub in_flight : Bytes → State → Bool
  pub do_chan : Bytes → State → State × Bool
  pub returned : Bytes → State → State

-- Singleflight's promise: one function at a time for a key.
pub record IsGroup (g : Group) : Type 0 where
  pub idle : (k : Bytes) → g.in_flight k g.new ≡ false
  pub leads : (k : Bytes) (s : g.State) → (g.do_chan k s).1 ≡ not (g.in_flight k s)
  pub begun :
      (q k : Bytes) (s : g.State)
      → g.in_flight q (g.do_chan k s).0 ≡ (bytes_eq q k || g.in_flight q s)
  pub ended :
      (q k : Bytes) (s : g.State)
      → g.in_flight q (g.returned k s) ≡ (if bytes_eq q k then false else g.in_flight q s)

-- Where a function is: before its look into the cache, or waiting for the registry.
pub data Phase : Type 0 where
  looking : Phase
  asking : Phase

-- The functions that run, and the callers by number, with the URL they wait for or the result they have.
pub record System (g : Group) : Type 0 where
  pub group : g.State
  pub cache : Option ResponseCache.Cache
  pub running : List (Bytes × Phase)
  pub waiting : List (ℕ × Bytes)
  pub results : List (ℕ × Fetched)

abbrev pub waits_for : Bytes → List (ℕ × Bytes) → Fetched → List (ℕ × Fetched)
waits_for url [] f = []
waits_for url ((n, u) ∷ ws) f =
    if bytes_eq u url then (n, f) ∷ waits_for url ws f else waits_for url ws f

abbrev pub others : Bytes → List (ℕ × Bytes) → List (ℕ × Bytes)
others url [] = []
others url ((n, u) ∷ ws) = if bytes_eq u url then others url ws else (n, u) ∷ others url ws

abbrev pub without : ℕ → List (ℕ × Bytes) → List (ℕ × Bytes)
without m [] = []
without m ((n, u) ∷ ws) = if n == m then without m ws else (n, u) ∷ without m ws

abbrev pub gone : ℕ → Failure → List (ℕ × Bytes) → List (ℕ × Fetched)
gone m f [] = []
gone m f ((n, u) ∷ ws) = if n == m then (n, broken f) ∷ gone m f ws else gone m f ws

module _ (world : World) (g : Group) where
  -- A call of `DoChan`, which starts a function, next to those that run, or joins one.
  unfoldable pub join : ℕ → Bytes → System g → System g
  join n url s =
      let (group, leads) = g.do_chan url s.group in
      record s {
        group = group;
        running = if leads then (url, looking) ∷ s.running else s.running;
        waiting = (n, url) ∷ s.waiting;
      }

  -- A function returns, and its callers have the result.
  unfoldable pub give : Bytes → Fetched → System g → System g
  give url f s = record s {
    group = g.returned url s.group;
    running = erase Bytes-discrete url s.running;
    waiting = others url s.waiting;
    results = waits_for url s.waiting f ++ s.results;
  }

  -- A function sends its request, if one can be made.
  unfoldable pub request : Bytes ⊎ Outgoing → Bytes → System g → System g
  request (inl text) url s = give url (broken (plain text)) s
  request (inr out) url s = record s { running = insert Bytes-discrete url asking s.running }

  -- The look of a function into the cache.
  unfoldable pub look : ℕ → Bytes → System g → System g
  look now url s = elim (lookup Bytes-discrete url s.running) [
    | none ↦ s
    | some asking ↦ s
    | some looking ↦ elim (ResponseCache.get now url s.cache).1 [
      | some e ↦ give url (fetched e) (record s { cache = (ResponseCache.get now url s.cache).0 })
      | none ↦
          request (new_backend_request world (codes "GET") url fetch_header) url
            (record s { cache = (ResponseCache.get now url s.cache).0 })
    ]
  ]

  -- The answer of the registry.
  unfoldable pub answer : ℕ → Bytes → Back → System g → System g
  answer later url back s = elim (lookup Bytes-discrete url s.running) [
    | none ↦ s
    | some looking ↦ s
    | some asking ↦
        let (cache, f) = land world later url back s.cache in
        give url f (record s { cache = cache })
  ]

  -- The context of a caller is done.
  unfoldable pub leave : ℕ → Failure → System g → System g
  leave n f s = record s {
    waiting = without n s.waiting;
    results = gone n f s.waiting ++ s.results;
  }

  abbrev pub start : Option ResponseCache.Cache → System g
  start cache = record { group = g.new; cache = cache; running = []; waiting = []; results = [] }
