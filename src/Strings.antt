-- ===== src/Strings.antt =====
-- The functions of Go's package strings that the program calls, on byte lists. Separators are one
-- byte, as all those of the program; `trim_space` takes ASCII text.
pub mod SplitJoin
pub mod Prefix
pub mod Order
pub mod Replace
mod Tests
use registry_redirect.Prelude.{
  ℕ, ◌+◌, Bool, true, false, ◌&&◌, ◌||◌, Option, none, some, List, [], ◌∷◌, ◌++◌, reverse, Bytes,
  codes, ltb, ◌==◌, if◌then◌else◌, length, drop,
}

-- The first part of a split, in front of the others.
abbrev pub extend : ℕ → List Bytes → List Bytes
extend b [] = (b ∷ []) ∷ []
extend b (part ∷ parts) = (b ∷ part) ∷ parts

-- `strings.Split(s, sep)` for a separator of one byte.
unfoldable pub split : ℕ → Bytes → List Bytes
split sep [] = [] ∷ []
split sep (b ∷ s) = if b == sep then [] ∷ split sep s else extend b (split sep s)

-- `strings.Join(parts, sep)`.
unfoldable pub join : ℕ → List Bytes → Bytes
join sep [] = []
join sep (part ∷ []) = part
join sep (part ∷ more ∷ parts) = part ++ (sep ∷ join sep (more ∷ parts))

-- Without the leading bytes that pass a test.
unfoldable pub trim_left : (ℕ → Bool) → Bytes → Bytes
trim_left test [] = []
trim_left test (b ∷ s) = let rest = trim_left test s in if test b then rest else b ∷ s

-- Without those at both ends.
unfoldable pub trim : (ℕ → Bool) → Bytes → Bytes
unfolding trim_left
trim test s = reverse (trim_left test (reverse (trim_left test s)))

-- `strings.Trim(s, "/")`.
unfoldable pub trim_slashes : Bytes → Bytes
unfolding trim
trim_slashes = trim (λ b. b == b'/')

abbrev pub is_space : ℕ → Bool
is_space b = b == 9 || b == 10 || b == 11 || b == 12 || b == 13 || b == 32

unfoldable pub trim_space : Bytes → Bytes
unfolding trim
trim_space = trim is_space

-- What follows a prefix, if the text has it.
unfoldable pub after_prefix : Bytes → Bytes → Option Bytes
after_prefix [] s = some s
after_prefix (p ∷ ps) [] = none
after_prefix (p ∷ ps) (b ∷ s) = if p == b then after_prefix ps s else none

-- `strings.HasPrefix(s, prefix)` and `strings.TrimPrefix(s, prefix)`, in their argument order.
unfoldable pub has_prefix : Bytes → Bytes → Bool
unfolding after_prefix
has_prefix s prefix = elim (after_prefix prefix s) [ none ↦ false | some _ ↦ true ]

unfoldable pub trim_prefix : Bytes → Bytes → Bytes
unfolding after_prefix
trim_prefix s prefix = elim (after_prefix prefix s) [ none ↦ s | some rest ↦ rest ]

-- `strings.Contains(s, sub)`.
unfoldable pub contains : Bytes → Bytes → Bool
unfolding has_prefix
contains [] sub = has_prefix [] sub
contains (b ∷ s) sub = has_prefix (b ∷ s) sub || contains s sub

-- `strings.Replace(s, old, new, 1)` for a non-empty `old`.
unfoldable pub replace_first : Bytes → Bytes → Bytes → Bytes
unfolding after_prefix
replace_first [] old new = []
replace_first (b ∷ s) old new =
    let later = b ∷ replace_first s old new in
    elim (after_prefix old (b ∷ s)) [ none ↦ later | some rest ↦ new ++ rest ]

-- `a < b` on strings.
unfoldable pub less_bytes : Bytes → Bytes → Bool
less_bytes _ [] = false
less_bytes [] (b ∷ bs) = true
less_bytes (a ∷ xs) (b ∷ ys) = if a == b then less_bytes xs ys else ltb a b
