-- ===== src/ManifestCache/Lru.antt =====
-- What the manifest cache promises, with no map, no pointers and no counter: a list of entries, the
-- most recently used first, of which the longest prefix within the budget is kept.
use registry_redirect.Prelude.{
  ℕ, ◌-◌, ◌≤◌, ◌<◌, ◌≡◌, refl, ite, Option, none, some, List, [], ◌∷◌, map, arith, leb, Bytes,
  Bytes-discrete, ℕ_discrete, if◌then◌else◌,
}
use registry_redirect.GoMap.{IsMap, lookup, erase, erase_absent}
use registry_redirect.ManifestCache.{Entry, Element, back}
use registry_redirect.ManifestCache.Entries.{
  total, find_key, IsKeyed, find_key-ne-none, lookup-back,
}

unfoldable pub find_entry : Bytes → List Entry → Option Entry
find_entry k [] = none
find_entry k (e ∷ l) = ite (Bytes-discrete k e.key) (some e) (find_entry k l)

unfoldable pub without : Bytes → List Entry → List Entry
without k [] = []
without k (e ∷ l) = let rest = without k l in ite (Bytes-discrete k e.key) rest (e ∷ rest)

-- A use of a key moves its entry to the front.
unfoldable pub touch : Bytes → List Entry → List Entry
touch k l = elim (find_entry k l) [ none ↦ l | some e ↦ e ∷ without k l ]

-- The longest prefix whose sizes sum up to at most the budget.
unfoldable pub fitting : ℕ → List Entry → List Entry
fitting budget [] = []
fitting budget (e ∷ l) = if leb e.size budget then e ∷ fitting (budget - e.size) l else []

-- The entries of a recency list.
unfoldable pub entries : List Element → List Entry
entries = map (λ el. el.1)

pub fitting_all : (n : ℕ) (l : List Element) → total l ≤ n → fitting n (entries l) ≡ entries l
unfolding fitting entries total
fitting_all n [] h = refl
fitting_all n ((i, e) ∷ l) h = ground (arith, fitting_all (n - e.size) l)

-- Over the budget, the last element is not in the prefix.
pub fitting-back :
    (n i : ℕ) (e : Entry) (l : List Element)
    → IsMap ℕ_discrete l
    → back l ≡ some (i, e)
    → n < total l
    → fitting n (entries l) ≡ fitting n (entries (erase ℕ_discrete i l))
unfolding fitting entries total back erase lookup
fitting-back n i e [] m h over = cc
fitting-back n i e ((j, f) ∷ []) m h over = ground arith
fitting-back n i e ((j, f) ∷ (k, g) ∷ l) (new, m) h over =
    ground (arith, fitting-back (n - f.size) i e ((k, g) ∷ l) m h, lookup-back i e ((k, g) ∷ l) m h)

pub find_entry-entries :
    (k : Bytes) (l : List Element)
    → find_entry k (entries l) ≡ elim (find_key k l) [ none ↦ none | some el ↦ some el.1 ]
unfolding find_entry entries find_key
find_entry-entries k [] = refl
find_entry-entries k ((i, e) ∷ l) = ground (arith, find_entry-entries k l)

pub without_absent :
    (k : Bytes) (l : List Element) → find_key k l ≡ none → without k (entries l) ≡ entries l
unfolding without entries find_key
without_absent k [] h = refl
without_absent k ((i, e) ∷ l) h = ground (arith, without_absent k l)

-- To remove an element by its identity is to remove its key.
pub entries-erase :
    (i : ℕ) (e : Entry) (l : List Element)
    → IsMap ℕ_discrete l
    → IsKeyed l
    → lookup ℕ_discrete i l ≡ some e
    → entries (erase ℕ_discrete i l) ≡ without e.key (entries l)
unfolding without entries lookup erase
entries-erase i e [] m k h = cc
entries-erase i e ((j, f) ∷ l) (new, m) (own, k) h = ground (
  arith,
  entries-erase i e l m k,
  erase_absent ℕ_discrete i l,
  find_key-ne-none i e l,
  without_absent f.key l own,
)
