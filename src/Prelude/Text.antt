-- ===== src/Prelude/Text.antt =====
-- Go strings and byte slices as lists of bytes.
use Prim.Native.Char.{code}
use Prim.Native.Nat.{ℕ}
use Prim.Native.String.{String}
use mathlib.Core.Path.{◌≡◌, refl}
use mathlib.Core.List.{List, [], ◌∷◌}
use native.Mathlib.Decide.{ℕ_discrete}

abbrev pub Bytes : Type 0
Bytes = List ℕ

-- The bytes of an ASCII literal.
abbrev pub codes : String → Bytes
codes String.[] = []
codes (String.◌∷◌ c s) = code c ∷ codes s

nil≢cons : {b : ℕ} {bs : Bytes} → [] ≡ b ∷ bs → ⊥
nil≢cons h = cc

cons≢nil : {b : ℕ} {bs : Bytes} → b ∷ bs ≡ [] → ⊥
cons≢nil h = cc

head_eq : {a b : ℕ} {xs ys : Bytes} → a ∷ xs ≡ b ∷ ys → a ≡ b
head_eq h = cc

tail_eq : {a b : ℕ} {xs ys : Bytes} → a ∷ xs ≡ b ∷ ys → xs ≡ ys
tail_eq h = cc

cons_eq : {a b : ℕ} {xs ys : Bytes} → a ≡ b → xs ≡ ys → a ∷ xs ≡ b ∷ ys
cons_eq h k = cc

-- The decision for `a == b` on strings.
unfoldable pub Bytes-discrete : Discrete Bytes
unfolding ℕ_discrete nil≢cons cons≢nil head_eq tail_eq cons_eq
Bytes-discrete [] [] = yes refl
Bytes-discrete [] (b ∷ bs) = no nil≢cons
Bytes-discrete (a ∷ xs) [] = no cons≢nil
Bytes-discrete (a ∷ xs) (b ∷ ys) = elim (ℕ_discrete a b) [
  | yes p ↦ elim (Bytes-discrete xs ys) [
    | yes q ↦ yes (cons_eq p q)
    | no q ↦ no (λ h. q (tail_eq h))
  ]
  | no p ↦ no (λ h. p (head_eq h))
]
