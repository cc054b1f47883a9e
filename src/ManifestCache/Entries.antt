-- ===== src/ManifestCache/Entries.antt =====
-- What a recency list holds: the total size, the element with a key, and the removal of an element.
use registry_redirect.Prelude.{
  ℕ, ◌+◌, ◌<◌, ◌≡◌, refl, ite, ◌≢◌, Option, none, some, List, [], ◌∷◌, All, arith, Bytes,
  Bytes-discrete, ℕ_discrete,
}
use registry_redirect.GoMap.{IsMap, lookup, erase, erase_absent}
use registry_redirect.ManifestCache.{Entry, Element, back}

unfoldable pub total : List Element → ℕ
total [] = 0
total ((_, e) ∷ l) = e.size + total l

-- The first element for a key.
unfoldable pub find_key : Bytes → List Element → Option Element
find_key k [] = none
find_key k ((i, e) ∷ l) = ite (Bytes-discrete k e.key) (some (i, e)) (find_key k l)

-- No two elements share a key.
abbrev pub IsKeyed : List Element → Type 0
IsKeyed [] = Unit
IsKeyed ((i, e) ∷ l) = (find_key e.key l ≡ none) × IsKeyed l

pub find_key-erase-none :
    (q : Bytes) (i : ℕ) (l : List Element)
    → find_key q l ≡ none
    → find_key q (erase ℕ_discrete i l) ≡ none
unfolding find_key erase
find_key-erase-none q i [] h = refl
find_key-erase-none q i ((j, f) ∷ l) h = ground (arith, find_key-erase-none q i l)

pub erase-IsKeyed : (i : ℕ) (l : List Element) → IsKeyed l → IsKeyed (erase ℕ_discrete i l)
unfolding erase
erase-IsKeyed i [] h = tt
erase-IsKeyed i ((j, f) ∷ l) (new, h) =
    ground (arith, erase-IsKeyed i l h, find_key-erase-none f.key i l new)

pub find_key-ne-none :
    (i : ℕ) (e : Entry) (l : List Element)
    → lookup ℕ_discrete i l ≡ some e
    → find_key e.key l ≢ none
unfolding find_key lookup
find_key-ne-none i e [] h = cc
find_key-ne-none i e ((j, f) ∷ l) h = ground (arith, find_key-ne-none i e l)

-- The element that a lookup by identity names hides exactly its own key when it goes.
pub find_key-erase :
    (q : Bytes) (i : ℕ) (e : Entry) (l : List Element)
    → IsMap ℕ_discrete l
    → IsKeyed l
    → lookup ℕ_discrete i l ≡ some e
    → find_key q (erase ℕ_discrete i l) ≡ ite (Bytes-discrete q e.key) none (find_key q l)
unfolding find_key erase lookup
find_key-erase q i e [] m k h = cc
find_key-erase q i e ((j, f) ∷ l) (new, m) (own, k) h =
    ground (arith, find_key-erase q i e l m k, erase_absent ℕ_discrete i l, find_key-ne-none i e l)

pub total-erase :
    (i : ℕ) (e : Entry) (l : List Element)
    → IsMap ℕ_discrete l
    → lookup ℕ_discrete i l ≡ some e
    → total (erase ℕ_discrete i l) + e.size ≡ total l
unfolding total erase lookup
total-erase i e [] m h = cc
total-erase i e ((j, f) ∷ l) (new, m) h =
    ground (arith, total-erase i e l m, erase_absent ℕ_discrete i l)

pub erase-All :
    (P : Element → Type 0) (i : ℕ) (l : List Element) → All P l → All P (erase ℕ_discrete i l)
unfolding erase
erase-All P i [] h = tt
erase-All P i ((j, f) ∷ l) (p, h) = ground (arith, erase-All P i l h)

-- An element that is found by its key is found by its identity.
pub lookup_of_find_key :
    (k : Bytes) (i : ℕ) (e : Entry) (l : List Element)
    → IsMap ℕ_discrete l
    → find_key k l ≡ some (i, e)
    → lookup ℕ_discrete i l ≡ some e
unfolding find_key lookup
lookup_of_find_key k i e [] m h = cc
lookup_of_find_key k i e ((j, f) ∷ l) (new, m) h = ground (arith, lookup_of_find_key k i e l m)

pub key_of_find_key :
    (k : Bytes) (i : ℕ) (e : Entry) (l : List Element) → find_key k l ≡ some (i, e) → e.key ≡ k
unfolding find_key
key_of_find_key k i e [] h = cc
key_of_find_key k i e ((j, f) ∷ l) h = ground (arith, key_of_find_key k i e l)

pub lookup-back :
    (i : ℕ) (e : Entry) (l : List Element)
    → IsMap ℕ_discrete l
    → back l ≡ some (i, e)
    → lookup ℕ_discrete i l ≡ some e
unfolding back lookup
lookup-back i e [] m h = cc
lookup-back i e ((j, f) ∷ []) m h = ground arith
lookup-back i e ((j, f) ∷ (n, g) ∷ l) (new, m) h = ground (arith, lookup-back i e ((n, g) ∷ l) m h)

-- An identity below the bound of no element is new.
pub lookup_fresh :
    (n : ℕ) (l : List Element) → All (λ el. el.0 < n) l → lookup ℕ_discrete n l ≡ none
unfolding lookup
lookup_fresh n [] h = refl
lookup_fresh n ((j, f) ∷ l) (p, h) = ground (arith, lookup_fresh n l h)
