-- ===== src/Tracker/Top.antt =====
-- The report of the tracker: sorted, and with the count of every client that it holds.
use registry_redirect.Prelude.{
  ℕ, suc, ◌+◌, ◌<◌, ◌≤◌, ◌⊎◌, ◌≡◌, refl, ap, ◌∙◌, Option, none, some, List, [], ◌∷◌, Bytes,
  Bytes-discrete, true, false, arith, Bool-cases, inl, inr, ite, All, length,
}
use registry_redirect.GoMap.{IsMap, lookup, insert, lookup-insert}
use registry_redirect.Strings.{less_bytes}
use registry_redirect.Strings.Order.{less_bytes_asym, less_bytes_trans}
use registry_redirect.Tracker.{
  Entry, Tracker, Count, sorts_before, insert_sorted, sort_counts, snapshot, top, fill, top_map,
}
use registry_redirect.Tracker.Lowest.{IsKeyed}
use registry_redirect.Tracker.Bounds.{IsValid}

-- No count stands above one that sorts before it.
abbrev IsSorted : List Count → Type 0
IsSorted [] = Unit
IsSorted (c ∷ l) = All (λ d. sorts_before d c ≡ false) l × IsSorted l

-- Higher counts come first, and then lesser addresses.
abbrev pub IsFalling : List Count → Type 0
IsFalling [] = Unit
IsFalling ((ip, n) ∷ l) =
    All (λ d. (d.1 < n) ⊎ ((d.1 ≡ n) × (less_bytes d.0 ip ≡ false))) l × IsFalling l

falling-one :
    (c d : Count)
    → sorts_before d c ≡ false
    → (d.1 < c.1) ⊎ ((d.1 ≡ c.1) × (less_bytes d.0 c.0 ≡ false))
unfolding sorts_before
falling-one (a, m) (b, n) h = ground arith

falling-All :
    (c : Count) (l : List Count)
    → All (λ d. sorts_before d c ≡ false) l
    → All (λ d. (d.1 < c.1) ⊎ ((d.1 ≡ c.1) × (less_bytes d.0 c.0 ≡ false))) l
falling-All c [] h = tt
falling-All c (d ∷ l) (p, h) = (falling-one c d p, falling-All c l h)

IsSorted-IsFalling : (l : List Count) → IsSorted l → IsFalling l
IsSorted-IsFalling [] h = tt
IsSorted-IsFalling ((ip, n) ∷ l) (p, h) = (falling-All (ip, n) l p, IsSorted-IsFalling l h)

sorts_before_asym : (a b : Count) → sorts_before a b ≡ true → sorts_before b a ≡ false
unfolding sorts_before
sorts_before_asym (a, m) (b, n) h = ground (arith, less_bytes_asym a b)

sorts_before_trans :
    (a b c : Count) → sorts_before b a ≡ false → sorts_before c b ≡ false → sorts_before c a ≡ false
unfolding sorts_before
sorts_before_trans (a, m) (b, n) (c, k) h h' = ground (arith, less_bytes_trans a b c)

All-insert_sorted :
    (P : Count → Type 0) (c : Count) (l : List Count) → P c → All P l → All P (insert_sorted c l)
unfolding insert_sorted
All-insert_sorted P c [] p h = (p, tt)
All-insert_sorted P c (d ∷ l) p (q, h) = ground (arith, All-insert_sorted P c l p h)

All-sorts_before :
    (a b : Count) (l : List Count)
    → sorts_before b a ≡ false
    → All (λ d. sorts_before d b ≡ false) l
    → All (λ d. sorts_before d a ≡ false) l
All-sorts_before a b [] h k = tt
All-sorts_before a b (d ∷ l) h (p, k) = (sorts_before_trans a b d h p, All-sorts_before a b l h k)

insert_sorted-IsSorted : (c : Count) (l : List Count) → IsSorted l → IsSorted (insert_sorted c l)
unfolding insert_sorted
insert_sorted-IsSorted c [] h = (tt, tt)
insert_sorted-IsSorted c (d ∷ l) (p, h) = elim (Bool-cases (sorts_before d c)) [
  | inl first ↦
      rw (first, insert_sorted)
        (
          All-insert_sorted (λ x. sorts_before x d ≡ false) c l (sorts_before_asym d c first) p,
          insert_sorted-IsSorted c l h,
        )
  | inr later ↦ rw (later, insert_sorted) ((later, All-sorts_before c d l later p), (p, h))
]

sort_counts-IsSorted : (l : List Count) → IsSorted (sort_counts l)
unfolding sort_counts
sort_counts-IsSorted [] = tt
sort_counts-IsSorted (c ∷ l) = insert_sorted-IsSorted c (sort_counts l) (sort_counts-IsSorted l)

lookup-insert_sorted :
    (q k : Bytes) (n : ℕ) (l : List Count)
    → lookup Bytes-discrete k l ≡ none
    → lookup Bytes-discrete q (insert_sorted (k, n) l)
      ≡ ite (Bytes-discrete q k) (some n) (lookup Bytes-discrete q l)
unfolding insert_sorted lookup
lookup-insert_sorted q k n [] h = refl
lookup-insert_sorted q k n ((j, m) ∷ l) h = ground (arith, lookup-insert_sorted q k n l)

length-insert_sorted : (c : Count) (l : List Count) → length (insert_sorted c l) ≡ length l + 1
unfolding insert_sorted
length-insert_sorted c [] = refl
length-insert_sorted c (d ∷ l) = ground (arith, length-insert_sorted c l)

lookup-sort_counts :
    (q : Bytes) (l : List Count)
    → IsMap Bytes-discrete l
    → lookup Bytes-discrete q (sort_counts l) ≡ lookup Bytes-discrete q l
unfolding sort_counts lookup
lookup-sort_counts q [] h = refl
lookup-sort_counts q ((k, n) ∷ l) (new, h) = ground (
  arith,
  lookup-insert_sorted q k n (sort_counts l),
  lookup-sort_counts q l h,
  lookup-sort_counts k l h,
)

insert_sorted-IsMap :
    (k : Bytes) (n : ℕ) (l : List Count)
    → IsMap Bytes-discrete l
    → lookup Bytes-discrete k l ≡ none
    → IsMap Bytes-discrete (insert_sorted (k, n) l)
unfolding insert_sorted lookup
insert_sorted-IsMap k n [] h new = (refl, tt)
insert_sorted-IsMap k n ((j, m) ∷ l) (own, h) new =
    ground (arith, insert_sorted-IsMap k n l h, lookup-insert_sorted j k n l)

sort_counts-IsMap : (l : List Count) → IsMap Bytes-discrete l → IsMap Bytes-discrete (sort_counts l)
unfolding sort_counts
sort_counts-IsMap [] h = tt
sort_counts-IsMap ((k, n) ∷ l) (new, h) =
    insert_sorted-IsMap k n (sort_counts l) (sort_counts-IsMap l h) (lookup-sort_counts k l h ∙ new)

length-sort_counts : (l : List Count) → length (sort_counts l) ≡ length l
unfolding sort_counts
length-sort_counts [] = refl
length-sort_counts (c ∷ l) =
    omega (arith, length-insert_sorted c (sort_counts l), length-sort_counts l)

length-snapshot : (m : List (Bytes × Entry)) → length (snapshot m) ≡ length m
unfolding snapshot
length-snapshot [] = refl
length-snapshot (kv ∷ m) = ap suc (length-snapshot m)

abbrev pub count? : Option Entry → Option ℕ
count? none = none
count? (some e) = some e.count

lookup-snapshot :
    (q : Bytes) (m : List (Bytes × Entry))
    → IsKeyed m
    → lookup Bytes-discrete q (snapshot m) ≡ count? (lookup Bytes-discrete q m)
unfolding snapshot lookup
lookup-snapshot q [] h = refl
lookup-snapshot q ((k, e) ∷ m) (own, h) = ground (arith, lookup-snapshot q m h)

snapshot-IsMap :
    (m : List (Bytes × Entry))
    → IsMap Bytes-discrete m
    → IsKeyed m
    → IsMap Bytes-discrete (snapshot m)
unfolding snapshot
snapshot-IsMap [] h o = tt
snapshot-IsMap ((k, e) ∷ m) (new, h) (own, o) =
    (ground (arith, lookup-snapshot k m o), snapshot-IsMap m h o)

lookup-fill :
    (q : Bytes) (l : List Count) (out : List (Bytes × ℕ))
    → IsMap Bytes-discrete l
    → lookup Bytes-discrete q (fill l out)
      ≡ elim (lookup Bytes-discrete q l) [ none ↦ lookup Bytes-discrete q out | some n ↦ some n ]
unfolding fill lookup
lookup-fill q [] out h = refl
lookup-fill q ((k, n) ∷ l) out (new, h) = ground (
  arith,
  lookup-fill q l (insert Bytes-discrete k n out) h,
  lookup-insert Bytes-discrete q k n out,
)

top-eq-sort_counts : (t : Tracker) → IsValid t → top (some t) ≡ sort_counts (snapshot t.counts)
unfolding top
top-eq-sort_counts t h =
    ground (arith, length-sort_counts (snapshot t.counts), length-snapshot t.counts)

-- A report: the counts fall, and of two addresses with the same count the later one is not the lesser;
-- each client that the tracker holds stands in it once, with its count, and no other does.
pub record IsReport (t : Tracker) (l : List Count) : Type 0 where
  pub falling : IsFalling l
  pub once : IsMap Bytes-discrete l
  pub complete : (q : Bytes) → lookup Bytes-discrete q l ≡ count? (lookup Bytes-discrete q t.counts)
  pub short : length l ≤ t.limit

-- The report of a valid tracker: the counts fall, and clients with the same count stand in the order of
-- their addresses. Each client that the tracker holds stands in it once, with its count, and no other
-- does. It is no longer than the limit.
pub top-IsReport : (t : Tracker) → IsValid t → IsReport t (top (some t))
top-IsReport t h =
    let unique = snapshot-IsMap t.counts h.is_map h.keyed in
    rw (top-eq-sort_counts t h) (record {
      falling =
          IsSorted-IsFalling (sort_counts (snapshot t.counts))
            (sort_counts-IsSorted (snapshot t.counts));
      once = sort_counts-IsMap (snapshot t.counts) unique;
      complete =
          λ q. lookup-sort_counts q (snapshot t.counts) unique ∙ lookup-snapshot q t.counts h.keyed;
      short =
          omega (arith, length-sort_counts (snapshot t.counts), length-snapshot t.counts, h.capped);
    })

-- The report of a valid tracker as a map has the count of each client that the tracker holds, and
-- nothing else.
pub lookup-top_map :
    (t : Tracker) (q : Bytes)
    → IsValid t
    → lookup Bytes-discrete q (top_map (some t)) ≡ count? (lookup Bytes-discrete q t.counts)
unfolding top_map lookup
lookup-top_map t q h =
    let unique = snapshot-IsMap t.counts h.is_map h.keyed in
    rw (top-eq-sort_counts t h) (
      ground (
        arith,
        lookup-fill q (sort_counts (snapshot t.counts)) []
            (sort_counts-IsMap (snapshot t.counts) unique),
        lookup-sort_counts q (snapshot t.counts) unique,
        lookup-snapshot q t.counts h.keyed,
      ))
