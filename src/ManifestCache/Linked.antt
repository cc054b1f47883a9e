-- ===== src/ManifestCache/Linked.antt =====
-- The invariant of the manifest cache: the map and the list hold the same elements, and `used` is
-- the sum of their sizes.
use registry_redirect.Prelude.{
  ℕ, ◌+◌, ◌≤◌, ◌<◌, ◌≡◌, refl, none, some, List, [], ◌∷◌, All, arith, Bytes, Bytes-discrete,
  ℕ_discrete, Option-cases, inl, inr,
}
use registry_redirect.GoMap.{IsMap, lookup, erase-IsMap, lookup-erase, lookup-insert}
use registry_redirect.ManifestCache.{
  Entry, Element, Cache, entry_size, detach, push_front, drop_existing,
}
use registry_redirect.ManifestCache.Entries.{
  total, find_key, IsKeyed, erase-IsKeyed, find_key-erase, total-erase, erase-All,
  lookup_of_find_key, key_of_find_key, lookup_fresh,
}

-- The size that an entry carries is that of its header and body.
abbrev pub IsSized : Element → Type 0
IsSized el = el.1.size ≡ entry_size el.1.header el.1.body

pub record IsLinked (c : Cache) : Type 0 where
  pub counted : c.used ≡ total c.order
  pub distinct : IsMap ℕ_discrete c.order
  pub below : All (λ el. el.0 < c.fresh) c.order
  pub keyed : IsKeyed c.order
  pub sized : All IsSized c.order
  pub indexed : (k : Bytes) → lookup Bytes-discrete k c.items ≡ find_key k c.order

-- Between two calls the cache also keeps to its budget.
pub record IsValid (c : Cache) : Type 0 where
  pub linked : IsLinked c
  pub fits : c.used ≤ c.max_bytes

pub detach-IsLinked :
    {c : Cache} (key : Bytes) (i : ℕ) (e : Entry)
    → IsLinked c
    → e.key ≡ key
    → lookup ℕ_discrete i c.order ≡ some e
    → IsLinked (detach key (i, e) c)
unfolding detach
detach-IsLinked {c} key i e h own found = record {
  counted = omega (arith, total-erase i e c.order h.distinct found, h.counted);
  distinct = erase-IsMap ℕ_discrete i c.order h.distinct;
  below = erase-All (λ el. el.0 < c.fresh) i c.order h.below;
  keyed = erase-IsKeyed i c.order h.keyed;
  sized = erase-All IsSized i c.order h.sized;
  indexed = λ k. ground (
    arith,
    h.indexed k,
    lookup-erase Bytes-discrete k key c.items,
    find_key-erase k i e c.order h.distinct h.keyed found,
  );
}

All-weaken : (n : ℕ) (l : List Element) → All (λ el. el.0 < n) l → All (λ el. el.0 < n + 1) l
All-weaken n [] h = tt
All-weaken n (el ∷ l) (p, h) = (omega arith, All-weaken n l h)

pub push_front-IsLinked :
    {c : Cache} (e : Entry)
    → IsLinked c
    → e.size ≡ entry_size e.header e.body
    → find_key e.key c.order ≡ none
    → IsLinked (push_front e c)
unfolding push_front total find_key
push_front-IsLinked {c} e h size new = record {
  counted = omega (arith, h.counted);
  distinct = (lookup_fresh c.fresh c.order h.below, h.distinct);
  below = (omega arith, All-weaken c.fresh c.order h.below);
  keyed = (new, h.keyed);
  sized = (size, h.sized);
  indexed =
      λ k. ground (arith, h.indexed k, lookup-insert Bytes-discrete k e.key (c.fresh, e) c.items);
}

-- After the older entry for the key is gone, none is left.
pub drop_existing-IsLinked :
    {c : Cache} (key : Bytes)
    → IsLinked c
    → IsLinked (drop_existing key c)
      × (find_key key (drop_existing key c).order ≡ none)
      × ((drop_existing key c).max_bytes ≡ c.max_bytes)
unfolding drop_existing
drop_existing-IsLinked {c} key h = elim (Option-cases (lookup Bytes-discrete key c.items)) [
  | inl miss ↦ rw (miss, drop_existing) (h, ground (arith, h.indexed key), refl)
  | inr ((i, e), hit) ↦
      let at_key : find_key key c.order ≡ some (i, e) = ground (arith, h.indexed key) in
      let found = lookup_of_find_key key i e c.order h.distinct at_key in
      rw (hit, drop_existing)
        (
          detach-IsLinked key i e h (key_of_find_key key i e c.order at_key) found,
          unfold detach in
              ground (
                arith,
                key_of_find_key key i e c.order at_key,
                find_key-erase key i e c.order h.distinct h.keyed found,
              ),
          unfold detach in refl,
        )
]
