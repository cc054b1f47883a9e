-- ===== src/Strings/Replace.antt =====
-- Replacing the first occurrence of a text that ends in a slash.
use registry_redirect.Prelude.{
  ℕ, ◌≡◌, ◌≢◌, refl, sym, ap, ◌∙◌, Option-cases, some, [], ◌∷◌, ◌++◌, Bytes, arith, inl, inr,
  length, length-append,
}
use registry_redirect.Strings.{after_prefix, replace_first}
use registry_redirect.Strings.Prefix.{after_prefix-append, append-after_prefix}
use registry_redirect.Strings.SplitJoin.{IsFree}

pub append_assoc : (a b c : Bytes) → (a ++ b) ++ c ≡ a ++ (b ++ c)
append_assoc [] b c = refl
append_assoc (x ∷ a) b c = ap (◌∷◌ x) (append_assoc a b c)

pub append-nil : (a : Bytes) → a ++ [] ≡ a
append-nil [] = refl
append-nil (x ∷ a) = ap (◌∷◌ x) (append-nil a)

pub IsFree-append : (sep : ℕ) (a b : Bytes) → IsFree sep a → IsFree sep b → IsFree sep (a ++ b)
IsFree-append sep [] b h k = k
IsFree-append sep (x ∷ a) b (p, h) k = (p, IsFree-append sep a b h k)

-- What stands before the first separator is determined.
first_sep :
    (sep : ℕ) (x y s t : Bytes)
    → IsFree sep x
    → IsFree sep y
    → x ++ (sep ∷ s) ≡ y ++ (sep ∷ t)
    → x ≡ y
first_sep sep [] [] s t h k e = refl
first_sep sep [] (b ∷ y) s t h (p, k) e = absurd (ground arith)
first_sep sep (a ∷ x) [] s t (p, h) k e = absurd (ground arith)
first_sep sep (a ∷ x) (b ∷ y) s t (p, h) (q, k) e =
    let heads : a ≡ b = cc in
    let tails : x ++ (sep ∷ s) ≡ y ++ (sep ∷ t) = cc in
    ground (arith, first_sep sep x y s t h k tails)

longer-ne : (b : ℕ) (a p : Bytes) → (b ∷ a) ++ p ≢ p
longer-ne b a p e =
    let lengths : length ((b ∷ a) ++ p) ≡ length p = ap length e in
    omega (arith, lengths, length-append (b ∷ a) p)

-- In `a ++ p ++ "/" ++ rest`, where neither `a` nor `p` has a slash, `p` with its slash occurs first
-- where it stands.
pub replace_first-slashed :
    (sep : ℕ) (a p rest new : Bytes)
    → IsFree sep a
    → IsFree sep p
    → replace_first (a ++ (p ++ (sep ∷ rest))) (p ++ (sep ∷ [])) new ≡ a ++ (new ++ rest)
unfolding replace_first
replace_first-slashed sep [] [] rest new h k = unfold after_prefix in ground arith
replace_first-slashed sep [] (c ∷ p) rest new h k =
    let found : after_prefix ((c ∷ p) ++ (sep ∷ [])) ((c ∷ p) ++ (sep ∷ rest)) ≡ some rest =
      ap (after_prefix ((c ∷ p) ++ (sep ∷ []))) (sym (append_assoc (c ∷ p) (sep ∷ []) rest))
      ∙ after_prefix-append ((c ∷ p) ++ (sep ∷ [])) rest in
    rw (found, replace_first) refl
replace_first-slashed sep (b ∷ a) p rest new (q, h) k =
    elim (Option-cases (after_prefix (p ++ (sep ∷ [])) (b ∷ (a ++ (p ++ (sep ∷ rest)))))) [
      | inl missing ↦
          rw (missing, replace_first) (ap (◌∷◌ b) (replace_first-slashed sep a p rest new h k))
      | inr (r, found) ↦
          let whole =
            append-after_prefix (p ++ (sep ∷ [])) (b ∷ (a ++ (p ++ (sep ∷ rest)))) r found in
          let lined : ((b ∷ a) ++ p) ++ (sep ∷ rest) ≡ p ++ (sep ∷ r) =
            append_assoc (b ∷ a) p (sep ∷ rest) ∙ whole ∙ append_assoc p (sep ∷ []) r in
          absurd (
            longer-ne b a p (
              first_sep sep ((b ∷ a) ++ p) p rest r (IsFree-append sep (b ∷ a) p (q, h) k) k lined))
    ]

pub replace_first-append :
    (b : ℕ) (p s new : Bytes) → replace_first ((b ∷ p) ++ s) (b ∷ p) new ≡ new ++ s
unfolding replace_first
replace_first-append b p s new = rw (after_prefix-append (b ∷ p) s, replace_first) refl
