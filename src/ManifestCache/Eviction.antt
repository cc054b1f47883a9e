-- ===== src/ManifestCache/Eviction.antt =====
-- The eviction loop of the manifest cache ends, and leaves the longest prefix that fits.
use registry_redirect.Prelude.{
  ℕ, zero, suc, ◌+◌, ◌≤◌, ◌<◌, ◌≡◌, refl, sym, ◌∙◌, false, none, some, List, [], ◌∷◌, arith, Bytes,
  Bytes-discrete, ℕ_discrete, length, Option-cases, Bool-cases, inl, inr, ltb, ltb→lt, ◌≢◌, ◌⊎◌,
}
use registry_redirect.GoMap.{lookup, length-erase}
use registry_redirect.ManifestCache.{
  Entry, Element, Cache, back, detach, remove_oldest, evict, drop_existing,
}
use registry_redirect.ManifestCache.Entries.{
  total, find_key, lookup_of_find_key, key_of_find_key, lookup-back,
}
use registry_redirect.ManifestCache.Linked.{IsLinked, IsValid, detach-IsLinked}
use registry_redirect.ManifestCache.Lru.{
  without, fitting, entries, fitting_all, fitting-back, without_absent, entries-erase,
}

-- The abstract view of a cache.
abbrev pub view : Cache → List Entry
view c = entries c.order

back-ne-none : (el : Element) (l : List Element) → back (el ∷ l) ≢ none
unfolding back
back-ne-none el [] h = cc
back-ne-none el (f ∷ l) h = back-ne-none f l h

back_cases : (l : List Element) → (l ≡ []) ⊎ ((i : ℕ) × (e : Entry) × (back l ≡ some (i, e)))
back_cases [] = inl refl
back_cases (el ∷ l) = elim (Option-cases (back (el ∷ l))) [
  | inl h ↦ absurd (back-ne-none el l h)
  | inr ((i, e), h) ↦ inr (i, e, h)
]

-- What one round of the eviction loop does above the budget.
record IsRound (c c' : Cache) : Type 0 where
  linked : IsLinked c'
  shorter : length c'.order + 1 ≡ length c.order
  same : fitting c.max_bytes (view c') ≡ fitting c.max_bytes (view c)
  pub budget : c'.max_bytes ≡ c.max_bytes

remove_oldest-IsRound :
    (c : Cache) → IsLinked c → c.max_bytes < c.used → IsRound c (remove_oldest c)
unfolding remove_oldest
remove_oldest-IsRound c h over = elim (back_cases c.order) [
  | inl nothing ↦
      let no_size : total c.order ≡ 0 = rw nothing (unfold total in refl) in
      absurd (omega (arith, h.counted))
  | inr (i, e, oldest) ↦
      let found = lookup-back i e c.order h.distinct oldest in
      rw (oldest, remove_oldest)
        (record {
          linked = detach-IsLinked e.key i e h refl found;
          shorter = unfold detach in length-erase ℕ_discrete i e c.order h.distinct found;
          same =
              unfold detach in
              sym
                (fitting-back c.max_bytes i e c.order h.distinct oldest (omega (arith, h.counted)));
          budget = unfold detach in refl;
        })
]

-- The result of the eviction loop.
pub record IsEvicted (c c' : Cache) : Type 0 where
  pub valid : IsValid c'
  pub prefix : view c' ≡ fitting c.max_bytes (view c)
  pub budget : c'.max_bytes ≡ c.max_bytes

IsEvicted-stop : (c : Cache) → IsLinked c → ltb c.max_bytes c.used ≡ false → IsEvicted c c
IsEvicted-stop c h stop =
    let fits : c.used ≤ c.max_bytes = ground arith in
    record {
      valid = record { linked = h; fits = fits };
      prefix = sym (fitting_all c.max_bytes c.order (omega (arith, h.counted)));
      budget = refl;
    }

IsEvicted-round : {c d c' : Cache} → IsRound c d → IsEvicted d c' → IsEvicted c c'
IsEvicted-round r e = record {
  valid = e.valid;
  prefix = e.prefix ∙ rw r.budget r.same;
  budget = e.budget ∙ r.budget;
}

total_of_length-zero : (l : List Element) → length l ≤ 0 → total l ≡ 0
unfolding total
total_of_length-zero [] h = refl
total_of_length-zero (el ∷ l) h = absurd (omega arith)

-- The loop ends within one round for each element.
pub evict-IsEvicted :
    (fuel : ℕ) (c : Cache)
    → IsLinked c
    → length c.order ≤ fuel
    → (c' : Cache) × (evict fuel c ≡ some c') × IsEvicted c c'
unfolding evict
evict-IsEvicted zero c h room =
    let stop : ltb c.max_bytes c.used ≡ false =
      ground (arith, h.counted, total_of_length-zero c.order room) in
    (c, rw (stop, evict) refl, IsEvicted-stop c h stop)
evict-IsEvicted (suc fuel) c h room = elim (Bool-cases (ltb c.max_bytes c.used)) [
  | inr stop ↦ (c, rw (stop, evict) refl, IsEvicted-stop c h stop)
  | inl more ↦
      let r = remove_oldest-IsRound c h (ltb→lt _ _ more) in
      let (c', done, e) =
        evict-IsEvicted fuel (remove_oldest c) r.linked (omega (arith, r.shorter)) in
      (c', rw (more, evict) done, IsEvicted-round r e)
]

pub drop_existing-view :
    (key : Bytes) (c : Cache) → IsLinked c → view (drop_existing key c) ≡ without key (view c)
unfolding drop_existing detach
drop_existing-view key c h = elim (Option-cases (lookup Bytes-discrete key c.items)) [
  | inl miss ↦
      rw (miss, drop_existing) (sym (without_absent key c.order (sym (h.indexed key) ∙ miss)))
  | inr ((i, e), hit) ↦
      let at_key : find_key key c.order ≡ some (i, e) = sym (h.indexed key) ∙ hit in
      rw (hit, drop_existing, ← key_of_find_key key i e c.order at_key)
        (entries-erase i e c.order h.distinct h.keyed
          (lookup_of_find_key key i e c.order h.distinct at_key))
]
