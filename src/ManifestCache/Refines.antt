-- ===== src/ManifestCache/Refines.antt =====
-- The methods of the manifest cache keep its invariant and implement the list of recent entries.
use native.Mathlib.Nat.{le_refl}
use registry_redirect.Prelude.{
  ℕ, ◌≤◌, ◌<◌, ◌≡◌, refl, sym, ◌∙◌, subst, ap, true, false, none, some, List, [], ◌∷◌, All, arith,
  Bytes, Bytes-discrete, ℕ_discrete, length, Option-cases, inl, inr, ltb,
}
use registry_redirect.GoMap.{lookup, erase, erase-IsMap, lookup-erase}
use registry_redirect.Header.{Header}
use registry_redirect.ManifestCache.{
  Entry, Element, Cache, init, entry_size, make_entry, move_to_front, get, push_front,
  drop_existing, set,
}
use registry_redirect.ManifestCache.Entries.{
  total, find_key, lookup_of_find_key, key_of_find_key, total-erase, find_key-erase, erase-All,
  erase-IsKeyed,
}
use registry_redirect.ManifestCache.Linked.{
  IsLinked, IsValid, IsSized, push_front-IsLinked, drop_existing-IsLinked,
}
use registry_redirect.ManifestCache.Lru.{
  find_entry, without, touch, fitting, entries, find_entry-entries, entries-erase,
}
use registry_redirect.ManifestCache.Eviction.{view, evict-IsEvicted, drop_existing-view}

-- A new cache is empty and valid.
pub init-IsValid : (n : ℕ) → IsValid (init n) × (view (init n) ≡ [])
unfolding init total entries find_key lookup
init-IsValid n = (
  record {
    linked = record {
      counted = refl;
      distinct = tt;
      below = tt;
      keyed = tt;
      sized = tt;
      indexed = λ k. refl;
    };
    fits = omega arith;
  },
  refl,
)

-- A stored response: the list of recent entries with the new one in front, cut to the budget.
abbrev pub stored : ℕ → Entry → List Entry → List Entry
stored budget e l = fitting budget (e ∷ without e.key l)

stored-push_front :
    (e : Entry) (c : Cache)
    → IsLinked c
    → fitting
        (push_front e (drop_existing e.key c)).max_bytes
        (view (push_front e (drop_existing e.key c)))
      ≡ stored c.max_bytes e (view c)
unfolding push_front entries
stored-push_front e c h = rw ((drop_existing-IsLinked e.key h).2, ← drop_existing-view e.key c h)

-- On a valid cache, where the response is within the budget, `set` ends, reports that it stored
-- it and leaves a valid cache. Its recent entries are then the new one and the longest prefix of
-- the others, without an older one for the key, that fits beside it.
pub set_stores :
    (key : Bytes) (status : ℕ) (header : Header) (body : Bytes) (c : Cache)
    → IsValid c
    → entry_size header body ≤ c.max_bytes
    → (c' : Cache) × (set key status header body c ≡ some (c', true))
      × IsValid c'
      × (view c' ≡ stored c.max_bytes (make_entry key status header body) (view c))
      × (c'.max_bytes ≡ c.max_bytes)
unfolding set make_entry
set_stores key status header body c h small =
    let e = make_entry key status header body in
    let (linked, gone, budget) = drop_existing-IsLinked e.key h.linked in
    let pushed = push_front-IsLinked e linked refl gone in
    let d = push_front e (drop_existing e.key c) in
    let (c', done, ev) = evict-IsEvicted (length d.order) d pushed (le_refl _) in
    let ok : ltb c.max_bytes (entry_size header body) ≡ false = ground arith in
    (
      c',
      rw (ok, done),
      ev.valid,
      ev.prefix ∙ stored-push_front e c h.linked,
      ev.budget ∙ unfold push_front in budget,
    )

-- Where the response is over the budget, `set` reports that and changes nothing.
pub set_refuses :
    (key : Bytes) (status : ℕ) (header : Header) (body : Bytes) (c : Cache)
    → c.max_bytes < entry_size header body
    → set key status header body c ≡ some (c, false)
unfolding set
set_refuses key status header body c large = ground arith

All-lookup :
    (P : Element → Type 0) (i : ℕ) (e : Entry) (l : List Element)
    → All P l
    → lookup ℕ_discrete i l ≡ some e
    → P (i, e)
unfolding lookup
All-lookup P i e [] h found = absurd (ground arith)
All-lookup P i e ((j, f) ∷ l) (p, h) found = elim (ℕ_discrete i j) [
  | yes here ↦ let same : Path Element (j, f) (i, e) = ground arith in subst P same p
  | no there ↦ All-lookup P i e l h (ground arith)
]

move_to_front-IsLinked :
    (i : ℕ) (e : Entry) (c : Cache)
    → IsLinked c
    → find_key e.key c.order ≡ some (i, e)
    → lookup ℕ_discrete i c.order ≡ some e
    → IsLinked (record c { order = (i, e) ∷ erase ℕ_discrete i c.order })
unfolding total find_key
move_to_front-IsLinked i e c h at_key found =
    let hides = λ (q : Bytes). find_key-erase q i e c.order h.distinct h.keyed found in
    record {
      counted = omega (arith, total-erase i e c.order h.distinct found, h.counted);
      distinct = (
        ground (arith, lookup-erase ℕ_discrete i i c.order),
        erase-IsMap ℕ_discrete i c.order h.distinct,
      );
      below = (
        All-lookup (λ el. el.0 < c.fresh) i e c.order h.below found,
        erase-All (λ el. el.0 < c.fresh) i c.order h.below,
      );
      keyed = (ground (arith, hides e.key), erase-IsKeyed i c.order h.keyed);
      sized = (All-lookup IsSized i e c.order h.sized found, erase-All IsSized i c.order h.sized);
      indexed = λ k. ground (arith, h.indexed k, hides k);
    }

-- On a valid cache `get` returns the entry for the key among the recent entries, moves it to
-- their front, and leaves a valid cache; a miss changes nothing.
pub get_lem :
    (key : Bytes) (c : Cache)
    → IsValid c
    → ((get key c).1 ≡ find_entry key (view c))
      × (view (get key c).0 ≡ touch key (view c))
      × IsValid (get key c).0
unfolding get touch move_to_front
get_lem key c h = elim (Option-cases (lookup Bytes-discrete key c.items)) [
  | inl miss ↦
      let view_miss : find_entry key (view c) ≡ none =
        ground (arith, find_entry-entries key c.order, h.linked.indexed key) in
      rw (miss, get) (rw view_miss, rw (view_miss, touch), h)
  | inr ((i, e), hit) ↦
      let at_key : find_key key c.order ≡ some (i, e) = sym (h.linked.indexed key) ∙ hit in
      let found = lookup_of_find_key key i e c.order h.linked.distinct at_key in
      let own = key_of_find_key key i e c.order at_key in
      let at_own = subst (λ k. find_key k c.order ≡ some (i, e)) (sym own) at_key in
      let view_hit : find_entry key (view c) ≡ some e =
        ground (arith, find_entry-entries key c.order) in
      let removed = entries-erase i e c.order h.linked.distinct h.linked.keyed found in
      rw (hit, get, found, move_to_front)
        (
          sym view_hit,
          rw (view_hit, touch, ← own) (unfold entries in ap (◌∷◌ e) removed),
          record { linked = move_to_front-IsLinked i e c h.linked at_own found; fits = h.fits },
        )
]
