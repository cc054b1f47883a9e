-- ===== src/Strings/Prefix.antt =====
-- Prefixes of byte lists.
use registry_redirect.Prelude.{
  ◌≡◌, refl, some, [], ◌∷◌, ◌++◌, Bytes, arith, true, Option-cases, inl, inr,
}
use registry_redirect.Strings.{after_prefix, has_prefix, trim_prefix}

pub after_prefix-append : (p s : Bytes) → after_prefix p (p ++ s) ≡ some s
unfolding after_prefix
after_prefix-append [] s = refl
after_prefix-append (b ∷ p) s = ground (arith, after_prefix-append p s)

pub append-after_prefix : (p s r : Bytes) → after_prefix p s ≡ some r → s ≡ p ++ r
unfolding after_prefix
append-after_prefix [] s r h = ground arith
append-after_prefix (b ∷ p) [] r h = cc
append-after_prefix (b ∷ p) (c ∷ s) r h = ground (arith, append-after_prefix p s r)

-- A text that has a prefix is the prefix and what is left when it is trimmed.
pub append-trim_prefix : (s p : Bytes) → has_prefix s p ≡ true → p ++ trim_prefix s p ≡ s
unfolding has_prefix trim_prefix
append-trim_prefix s p h = elim (Option-cases (after_prefix p s)) [
  | inl missing ↦ absurd (ground arith)
  | inr (r, found) ↦ rw (found, trim_prefix) (ground (arith, append-after_prefix p s r found))
]

pub has_prefix-append : (p s : Bytes) → has_prefix (p ++ s) p ≡ true
unfolding has_prefix
has_prefix-append p s = rw (after_prefix-append p s, has_prefix)

pub trim_prefix-append : (p s : Bytes) → trim_prefix (p ++ s) p ≡ s
unfolding trim_prefix
trim_prefix-append p s = rw (after_prefix-append p s, trim_prefix)
