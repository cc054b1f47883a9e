-- ===== src/GoMap.antt =====
-- Go's built-in map as an association list: the order of the list is the order in which a `range`
-- loop visits the entries, which Go leaves open. Assignment, `delete` and the loops that delete.
use registry_redirect.Prelude.{
  ◌+◌, ◌≤◌, ◌≡◌, refl, ◌≢◌, Bool, ite, none, some, List, [], ◌∷◌, arith, if◌then◌else◌, length,
}
unfoldable pub use mathlib.Core.List.{lookup}

-- No key stands twice.
abbrev pub IsMap {ℓ} : {K V : Type ℓ} → Discrete K → List (K × V) → Type ℓ
IsMap dec [] = Unit
IsMap dec ((k, v) ∷ m) = (lookup dec k m ≡ none) × IsMap dec m

module _ {ℓ} {K V : Type ℓ} where
  -- `for k, v := range m { if drop(k, v) { delete(m, k) } }`
  unfoldable pub sweep : (K → V → Bool) → List (K × V) → List (K × V)
  sweep drop [] = []
  sweep drop ((k, v) ∷ m) = let rest = sweep drop m in if drop k v then rest else (k, v) ∷ rest

  pub length-sweep-le : (drop : K → V → Bool) (m : List (K × V)) → length (sweep drop m) ≤ length m
  unfolding sweep
  length-sweep-le drop [] = omega arith
  length-sweep-le drop ((k, v) ∷ m) = ground (arith, length-sweep-le drop m)

module _ {ℓ} {K V : Type ℓ} (dec : Discrete K) where
  -- `m[k] = v`
  unfoldable pub insert : K → V → List (K × V) → List (K × V)
  insert k v [] = (k, v) ∷ []
  insert k v ((j, w) ∷ m) = ite (dec k j) ((k, v) ∷ m) ((j, w) ∷ insert k v m)

  -- `delete(m, k)`
  unfoldable pub erase : K → List (K × V) → List (K × V)
  erase k [] = []
  erase k ((j, w) ∷ m) = let rest = erase k m in ite (dec k j) rest ((j, w) ∷ rest)

  pub lookup-insert :
      (q k : K) (v : V) (m : List (K × V))
      → lookup dec q (insert k v m) ≡ ite (dec q k) (some v) (lookup dec q m)
  unfolding lookup insert
  lookup-insert q k v [] = refl
  lookup-insert q k v ((j, w) ∷ m) = ground (arith, lookup-insert q k v m)

  pub lookup-insert_self : (k : K) (v : V) (m : List (K × V)) → lookup dec k (insert k v m) ≡ some v
  lookup-insert_self k v m = ground (arith, lookup-insert k k v m)

  pub lookup-insert_ne :
      (q k : K) (v : V) (m : List (K × V)) → q ≢ k → lookup dec q (insert k v m) ≡ lookup dec q m
  lookup-insert_ne q k v m h = ground (arith, lookup-insert q k v m)

  pub lookup-erase :
      (q k : K) (m : List (K × V)) → lookup dec q (erase k m) ≡ ite (dec q k) none (lookup dec q m)
  unfolding lookup erase
  lookup-erase q k [] = ground arith
  lookup-erase q k ((j, w) ∷ m) = ground (arith, lookup-erase q k m)

  pub lookup-erase-none :
      (q k : K) (m : List (K × V)) → lookup dec q m ≡ none → lookup dec q (erase k m) ≡ none
  lookup-erase-none q k m h = ground (arith, lookup-erase q k m)

  pub insert-IsMap : (k : K) (v : V) (m : List (K × V)) → IsMap dec m → IsMap dec (insert k v m)
  unfolding lookup insert
  insert-IsMap k v [] h = (refl, tt)
  insert-IsMap k v ((j, w) ∷ m) (new, h) =
      ground (arith, insert-IsMap k v m h, lookup-insert j k v m)

  pub erase-IsMap : (k : K) (m : List (K × V)) → IsMap dec m → IsMap dec (erase k m)
  unfolding erase
  erase-IsMap k [] h = tt
  erase-IsMap k ((j, w) ∷ m) (new, h) = ground (arith, erase-IsMap k m h, lookup-erase-none j k m)

  pub lookup-sweep-none :
      (drop : K → V → Bool) (q : K) (m : List (K × V))
      → lookup dec q m ≡ none
      → lookup dec q (sweep drop m) ≡ none
  unfolding lookup sweep
  lookup-sweep-none drop q [] h = refl
  lookup-sweep-none drop q ((j, w) ∷ m) h = ground (arith, lookup-sweep-none drop q m)

  pub sweep-IsMap :
      (drop : K → V → Bool) (m : List (K × V)) → IsMap dec m → IsMap dec (sweep drop m)
  unfolding sweep
  sweep-IsMap drop [] h = tt
  sweep-IsMap drop ((j, w) ∷ m) (new, h) =
      ground (arith, sweep-IsMap drop m h, lookup-sweep-none drop j m)

  -- On a map, exactly the entries that fail the test stay.
  pub lookup-sweep :
      (drop : K → V → Bool) (q : K) (m : List (K × V))
      → IsMap dec m
      → lookup dec q (sweep drop m)
        ≡ elim (lookup dec q m) [ none ↦ none | some v ↦ if drop q v then none else some v ]
  unfolding lookup sweep
  lookup-sweep drop q [] h = refl
  lookup-sweep drop q ((j, w) ∷ m) (new, h) =
      ground (arith, lookup-sweep drop q m h, lookup-sweep-none drop j m new)

  pub length-insert_new :
      (k : K) (v : V) (m : List (K × V))
      → lookup dec k m ≡ none
      → length (insert k v m) ≡ length m + 1
  unfolding lookup insert
  length-insert_new k v [] h = refl
  length-insert_new k v ((j, w) ∷ m) h = ground (arith, length-insert_new k v m)

  pub length-insert_old :
      (k : K) (v w : V) (m : List (K × V))
      → lookup dec k m ≡ some w
      → length (insert k v m) ≡ length m
  unfolding lookup insert
  length-insert_old k v w [] h = cc
  length-insert_old k v w ((j, u) ∷ m) h = ground (arith, length-insert_old k v w m)

  pub length-erase-le : (k : K) (m : List (K × V)) → length (erase k m) ≤ length m
  unfolding erase
  length-erase-le k [] = omega arith
  length-erase-le k ((j, w) ∷ m) = ground (arith, length-erase-le k m)

  pub erase_absent : (k : K) (m : List (K × V)) → lookup dec k m ≡ none → erase k m ≡ m
  unfolding lookup erase
  erase_absent k [] h = refl
  erase_absent k ((j, w) ∷ m) h = ground (arith, erase_absent k m)

  pub length-erase :
      (k : K) (v : V) (m : List (K × V))
      → IsMap dec m
      → lookup dec k m ≡ some v
      → length (erase k m) + 1 ≡ length m
  unfolding lookup erase
  length-erase k v [] h e = cc
  length-erase k v ((j, w) ∷ m) (new, h) e = ground (arith, length-erase k v m h, erase_absent k m)
