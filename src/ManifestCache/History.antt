-- ===== src/ManifestCache/History.antt =====
-- Any sequence of calls of the manifest cache against the list of recent entries that it promises.
use registry_redirect.Prelude.{
  ℕ, ◌≡◌, refl, ◌∙◌, ap, Bool, true, false, Option, none, some, List, [], ◌∷◌, arith, Bytes, ltb,
  ltb→lt, if◌then◌else◌, Bool-cases, inl, inr,
}
use registry_redirect.Header.{Header}
use registry_redirect.ManifestCache.{Entry, Cache, init, entry_size, make_entry, get, set}
use registry_redirect.ManifestCache.Linked.{IsValid}
use registry_redirect.ManifestCache.Lru.{find_entry, touch}
use registry_redirect.ManifestCache.Eviction.{view}
use registry_redirect.ManifestCache.Refines.{init-IsValid, stored, set_stores, set_refuses, get_lem}

-- The two methods with their arguments, and what they return.
pub data Call : Type 0 where
  get_call : Bytes → Call
  set_call : Bytes → ℕ → Header → Bytes → Call

pub data Answer : Type 0 where
  found : Option Entry → Answer
  was_stored : Bool → Answer

-- One call on the cache; `none` if the eviction loop does not end.
unfoldable pub step : Call → Cache → Option (Cache × Answer)
step (get_call key) c = some ((get key c).0, found (get key c).1)
step (set_call key status header body) c = elim (set key status header body c) [
  | none ↦ none
  | some (c', ok) ↦ some (c', was_stored ok)
]

-- One call on the list of recent entries.
unfoldable pub lru_step : ℕ → Call → List Entry → List Entry × Answer
lru_step budget (get_call key) l = (touch key l, found (find_entry key l))
lru_step budget (set_call key status header body) l =
    if ltb budget (entry_size header body)
    then (l, was_stored false)
    else (stored budget (make_entry key status header body) l, was_stored true)

-- The calls one after the other, with the answers.
unfoldable pub run : List Call → Cache → Option (Cache × List Answer)
run [] c = some (c, [])
run (call ∷ calls) c = elim (step call c) [
  | none ↦ none
  | some (c', answer) ↦ elim (run calls c') [
    | none ↦ none
    | some (c'', answers) ↦ some (c'', answer ∷ answers)
  ]
]

unfoldable pub lru_run : ℕ → List Call → List Entry → List Entry × List Answer
lru_run budget [] l = (l, [])
lru_run budget (call ∷ calls) l =
    let (l', answer) = lru_step budget call l in
    let (l'', answers) = lru_run budget calls l' in (l'', answer ∷ answers)

get-max_bytes : (key : Bytes) (c : Cache) → (get key c).0.max_bytes ≡ c.max_bytes
unfolding get
get-max_bytes key c = ground arith

-- A call ends in a valid cache with the same budget, and with the list and the answer of the
-- specification.
record IsStep (call : Call) (c c' : Cache) (answer : Answer) : Type 0 where
  valid : IsValid c'
  budget : c'.max_bytes ≡ c.max_bytes
  list : view c' ≡ (lru_step c.max_bytes call (view c)).0
  same : answer ≡ (lru_step c.max_bytes call (view c)).1

step-IsStep :
    (call : Call) (c : Cache)
    → IsValid c
    → (c' : Cache) × (answer : Answer) × (step call c ≡ some (c', answer)) × IsStep call c c' answer
unfolding step lru_step
step-IsStep (get_call key) c h =
    let (answer, list, valid) = get_lem key c h in
    (
      _,
      _,
      refl,
      record { valid = valid; budget = get-max_bytes key c; list = list; same = ap found answer },
    )
step-IsStep (set_call key status header body) c h =
    elim (Bool-cases (ltb c.max_bytes (entry_size header body))) [
      | inl large ↦
          let refused = set_refuses key status header body c (ltb→lt _ _ large) in
          (
            c,
            was_stored false,
            rw (refused, step) refl,
            record { valid = h; budget = refl; list = rw large refl; same = rw large refl },
          )
      | inr small ↦
          let (c', done, valid, list, budget) =
            set_stores key status header body c h (ground arith) in
          (
            c',
            was_stored true,
            rw (done, step) refl,
            record { valid = valid; budget = budget; list = rw small list; same = rw small refl },
          )
    ]

run_from :
    (calls : List Call) (c : Cache)
    → IsValid c
    → (c' : Cache) × (answers : List Answer) × (run calls c ≡ some (c', answers))
      × IsValid c'
      × ((view c', answers) ≡ lru_run c.max_bytes calls (view c))
unfolding run lru_run
run_from [] c h = (c, [], refl, h, refl)
run_from (call ∷ calls) c h =
    let (d, answer, did, s) = step-IsStep call c h in
    let (c', answers, ran, valid, same) = run_from calls d s.valid in
    (
      c',
      answer ∷ answers,
      rw (did, run, ran) refl,
      valid,
      ground (arith, same, s.budget, s.list, s.same),
    )

-- From a new cache, every sequence of calls of `get` and `set` ends, in a valid cache within its
-- budget, and answers as the list of recent entries does: a hit moves an entry to the front, a store
-- puts the new one there and keeps the longest prefix within the budget, and a response over the
-- budget is refused.
pub run-lru_run :
    (budget : ℕ) (calls : List Call)
    → (c : Cache) × (answers : List Answer) × (run calls (init budget) ≡ some (c, answers))
      × IsValid c
      × ((view c, answers) ≡ lru_run budget calls [])
unfolding init
run-lru_run budget calls =
    let (valid, nothing) = init-IsValid budget in
    let (c, answers, ran, ok, same) = run_from calls (init budget) valid in
    (c, answers, ran, ok, same ∙ ap (lru_run budget calls) nothing)
