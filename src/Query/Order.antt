-- ===== src/Query/Order.antt =====
-- The encoding of a query does not depend on the order in which Go visits its map.
use registry_redirect.Prelude.{
  ◌≡◌, ◌≢◌, refl, sym, ap, ◌∙◌, true, false, none, some, List, [], ◌∷◌, Bytes, Bytes-discrete,
  arith, All, Bool-cases, inl, inr, ite,
}
use registry_redirect.GoMap.{IsMap, lookup}
use registry_redirect.Query.{Values, insert_key, sort_keys, pairs, encode}
use registry_redirect.Strings.{less_bytes, join}
use registry_redirect.Strings.Order.{less_bytes_asym, less_bytes_trans, less_bytes_connex}

-- All keys of a query stand after a key.
abbrev IsAfter : Bytes → Values → Type 0
IsAfter k q = All (λ e. less_bytes k e.0 ≡ true) q

-- The keys increase.
abbrev IsIncreasing : Values → Type 0
IsIncreasing [] = Unit
IsIncreasing (e ∷ q) = IsAfter e.0 q × IsIncreasing q

less_bytes_self : (k : Bytes) → less_bytes k k ≡ false
less_bytes_self k = ground (arith, less_bytes_asym k k)

less_bytes-lt_trans :
    (a b c : Bytes) → less_bytes a b ≡ true → less_bytes b c ≡ true → less_bytes a c ≡ true
less_bytes-lt_trans a b c h k = elim (Bool-cases (less_bytes a c)) [
  | inl yes_less ↦ yes_less
  | inr not_less ↦
      let h' = less_bytes_asym a b h in
      let k' = less_bytes_asym b c k in
      let back = less_bytes_trans c a b not_less h' in ground (arith, back)
]

IsAfter-lower : (a b : Bytes) (q : Values) → less_bytes a b ≡ true → IsAfter b q → IsAfter a q
IsAfter-lower a b [] h k = tt
IsAfter-lower a b (e ∷ q) h (p, k) = (less_bytes-lt_trans a b e.0 h p, IsAfter-lower a b q h k)

lookup_after : (k : Bytes) (q : Values) → IsAfter k q → lookup Bytes-discrete k q ≡ none
unfolding lookup
lookup_after k [] h = refl
lookup_after k ((j, vs) ∷ q) (p, h) = ground (arith, lookup_after k q h, less_bytes_self k)

lookup-insert_key :
    (q k : Bytes) (vs : List Bytes) (l : Values)
    → lookup Bytes-discrete k l ≡ none
    → lookup Bytes-discrete q (insert_key (k, vs) l)
      ≡ ite (Bytes-discrete q k) (some vs) (lookup Bytes-discrete q l)
unfolding insert_key lookup
lookup-insert_key q k vs [] h = refl
lookup-insert_key q k vs ((j, ws) ∷ l) h = ground (arith, lookup-insert_key q k vs l)

IsAfter-insert_key :
    (k : Bytes) (e : Bytes × List Bytes) (q : Values)
    → less_bytes k e.0 ≡ true
    → IsAfter k q
    → IsAfter k (insert_key e q)
unfolding insert_key
IsAfter-insert_key k e [] h p = (h, tt)
IsAfter-insert_key k e (f ∷ q) h (p, ps) = ground (arith, IsAfter-insert_key k e q h ps)

insert_key-IsIncreasing :
    (k : Bytes) (vs : List Bytes) (q : Values)
    → lookup Bytes-discrete k q ≡ none
    → IsIncreasing q
    → IsIncreasing (insert_key (k, vs) q)
unfolding insert_key lookup
insert_key-IsIncreasing k vs [] h p = (tt, tt)
insert_key-IsIncreasing k vs ((j, ws) ∷ q) h (after, p) = elim (Bool-cases (less_bytes j k)) [
  | inl first ↦
      rw (first, insert_key)
        (
          IsAfter-insert_key j (k, vs) q first after,
          insert_key-IsIncreasing k vs q (ground arith) p,
        )
  | inr later ↦
      let other : k ≢ j = λ e. ground arith in
      let before : less_bytes k j ≡ true = ground (arith, less_bytes_connex j k later) in
      rw (later, insert_key) ((before, IsAfter-lower k j q before after), (after, p))
]

lookup-sort_keys :
    (k : Bytes) (q : Values)
    → IsMap Bytes-discrete q
    → lookup Bytes-discrete k (sort_keys q) ≡ lookup Bytes-discrete k q
unfolding sort_keys lookup
lookup-sort_keys k [] h = refl
lookup-sort_keys k ((j, vs) ∷ q) (new, h) =
    let absent = lookup-sort_keys j q h ∙ new in
    ground (arith, lookup-insert_key k j vs (sort_keys q) absent, lookup-sort_keys k q h)

sort_keys-IsIncreasing : (q : Values) → IsMap Bytes-discrete q → IsIncreasing (sort_keys q)
unfolding sort_keys
sort_keys-IsIncreasing [] h = tt
sort_keys-IsIncreasing ((j, vs) ∷ q) (new, h) =
    insert_key-IsIncreasing j vs (sort_keys q) (lookup-sort_keys j q h ∙ new)
      (sort_keys-IsIncreasing q h)

-- The same values under each key.
abbrev pub IsSame : Values → Values → Type 0
IsSame q q' = (k : Bytes) → lookup Bytes-discrete k q ≡ lookup Bytes-discrete k q'

IsSame-head :
    (j k : Bytes) (vs ws : List Bytes) (q q' : Values)
    → IsAfter j q
    → IsAfter k q'
    → IsSame ((j, vs) ∷ q) ((k, ws) ∷ q')
    → j ≡ k
unfolding lookup
IsSame-head j k vs ws q q' h h' same = elim (Bool-cases (less_bytes j k)) [
  | inl below ↦
      let absent = lookup_after j q' (IsAfter-lower j k q' below h') in ground (arith, same j)
  | inr not_below ↦ elim (Bool-cases (less_bytes k j)) [
    | inl above ↦
        let absent = lookup_after k q (IsAfter-lower k j q above h) in ground (arith, same k)
    | inr not_above ↦ less_bytes_connex j k not_below not_above
  ]
]

IsIncreasing-unique : (q q' : Values) → IsIncreasing q → IsIncreasing q' → IsSame q q' → q ≡ q'
unfolding lookup
IsIncreasing-unique [] [] h h' same = refl
IsIncreasing-unique [] ((k, ws) ∷ q') h h' same = absurd (ground (arith, same k))
IsIncreasing-unique ((j, vs) ∷ q) [] h h' same = absurd (ground (arith, same j))
IsIncreasing-unique ((j, vs) ∷ q) ((k, ws) ∷ q') (a, h) (a', h') same =
    let e = IsSame-head j k vs ws q q' a a' same in
    let values : vs ≡ ws = ground (arith, same j) in
    let rest = IsIncreasing-unique q q' h h' (tails e) in ground arith
  where
    tails : j ≡ k → IsSame q q'
    tails e i = elim (Bytes-discrete i j) [
      | yes here ↦ ground (arith, lookup_after j q a, lookup_after k q' a')
      | no there ↦ ground (arith, same i)
    ]

-- Two maps with the same values under each key have the same encoding, in whatever order Go visits
-- their keys.
pub encode_same :
    (q q' : Values)
    → IsMap Bytes-discrete q
    → IsMap Bytes-discrete q'
    → IsSame q q'
    → encode q ≡ encode q'
unfolding encode
encode_same q q' m m' same =
    let sorted : sort_keys q ≡ sort_keys q' =
      IsIncreasing-unique (sort_keys q) (sort_keys q') (sort_keys-IsIncreasing q m)
        (sort_keys-IsIncreasing q' m')
        (λ k. lookup-sort_keys k q m ∙ same k ∙ sym (lookup-sort_keys k q' m')) in
    ap (λ x. join b'&' (pairs x)) sorted
