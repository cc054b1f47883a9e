-- ===== src/Strings/SplitJoin.antt =====
-- Splitting undoes joining where no part holds the separator.
use registry_redirect.Prelude.{
  ℕ, ◌≡◌, ◌≢◌, refl, ◌∙◌, ap, List, [], ◌∷◌, ◌++◌, Bytes, arith, All, Bool-cases, inl, inr, ◌==◌,
}
use registry_redirect.Strings.{extend, split, join}

-- A part without the separator.
abbrev pub IsFree : ℕ → Bytes → Type 0
IsFree sep s = All (λ b. b ≢ sep) s

pub split_free : (sep : ℕ) (s : Bytes) → IsFree sep s → split sep s ≡ s ∷ []
unfolding split
split_free sep [] h = refl
split_free sep (b ∷ s) (p, h) = ground (arith, split_free sep s h)

split-append : (sep : ℕ) (s t : Bytes) → IsFree sep s → split sep (s ++ (sep ∷ t)) ≡ s ∷ split sep t
unfolding split
split-append sep [] t h = ground arith
split-append sep (b ∷ s) t (p, h) = ground (arith, split-append sep s t h)

-- The parts come back, in order.
pub split-join :
    (sep : ℕ) (part : Bytes) (parts : List Bytes)
    → All (IsFree sep) (part ∷ parts)
    → split sep (join sep (part ∷ parts)) ≡ part ∷ parts
unfolding join
split-join sep part [] (h, _) = split_free sep part h
split-join sep part (more ∷ parts) (h, k) =
    split-append sep part (join sep (more ∷ parts)) h ∙ ap (◌∷◌ part) (split-join sep more parts k)

join-extend : (sep b : ℕ) (l : List Bytes) → l ≢ [] → join sep (extend b l) ≡ b ∷ join sep l
unfolding join
join-extend sep b [] h = absurd (h refl)
join-extend sep b (part ∷ []) h = refl
join-extend sep b (part ∷ more ∷ parts) h = refl

join-nil_cons : (sep : ℕ) (l : List Bytes) → l ≢ [] → join sep ([] ∷ l) ≡ sep ∷ join sep l
unfolding join
join-nil_cons sep [] h = absurd (h refl)
join-nil_cons sep (part ∷ parts) h = refl

extend-ne-nil : (b : ℕ) (l : List Bytes) → extend b l ≢ []
extend-ne-nil b [] h = cc
extend-ne-nil b (part ∷ parts) h = cc

pub split-ne-nil : (sep : ℕ) (s : Bytes) → split sep s ≢ []
unfolding split
split-ne-nil sep [] h = cc
split-ne-nil sep (b ∷ s) h = elim (Bool-cases (b == sep)) [
  | inl cut ↦ absurd (ground arith)
  | inr same ↦ extend-ne-nil b (split sep s) (ground arith)
]

-- Joining undoes splitting, whatever the text.
pub join-split : (sep : ℕ) (s : Bytes) → join sep (split sep s) ≡ s
unfolding split
join-split sep [] = unfold join in refl
join-split sep (b ∷ s) = elim (Bool-cases (b == sep)) [
  | inl cut ↦
      rw (cut, split)
        (join-nil_cons sep (split sep s) (split-ne-nil sep s) ∙ ground (arith, join-split sep s))
  | inr same ↦
      rw (same, split)
        (join-extend sep b (split sep s) (split-ne-nil sep s) ∙ ap (◌∷◌ b) (join-split sep s))
]
