-- ===== src/Paths/Loops.antt =====
-- The loops that look for a path separator, counted up or down.
use registry_redirect.Prelude.{
  ℕ, zero, suc, ◌+◌, ◌-◌, ◌≤◌, ◌≡◌, refl, ap, ◌∙◌, ◌⊎◌, true, ◌||◌, List, Bytes, codes, arith,
  length,
}
use registry_redirect.Paths.{
  bytes_eq, nth, separator_down, has_registry_path_separator, operation_from, blobs_up,
}

-- The last round of the loop that counts up.
blobs_up_last :
    (parts : List Bytes) (rounds i : ℕ)
    → blobs_up parts (suc rounds) i
      ≡ (blobs_up parts rounds i || bytes_eq (nth (i + rounds) parts) (codes "blobs"))
unfolding blobs_up
blobs_up_last parts zero i =
    let same : i + 0 ≡ i = omega arith in ground (arith, ap (λ k. nth k parts) same)
blobs_up_last parts (suc rounds) i =
    let same : i + 1 + rounds ≡ i + suc rounds = omega arith in
    ground (arith, blobs_up_last parts rounds (i + 1), ap (λ k. nth k parts) same)

separator_down_blobs :
    (parts : List Bytes) (k : ℕ) → separator_down parts (codes "blobs") (suc k) ≡ blobs_up parts k 2
unfolding separator_down
separator_down_blobs parts zero = unfold blobs_up in refl
separator_down_blobs parts (suc k) =
    let same : 2 + k ≡ suc (suc k) = omega arith in
    ground
      (arith, separator_down_blobs parts k, blobs_up_last parts k 2, ap (λ j. nth j parts) same)

-- Both loops look at the same parts.
pub has_registry_path_separator-blobs :
    (parts : List Bytes)
    → 4 ≤ length parts
    → has_registry_path_separator parts (codes "blobs") ≡ blobs_up parts (length parts - 1 - 2) 2
unfolding has_registry_path_separator
has_registry_path_separator-blobs parts h =
    let k = length parts - 1 - 2 in
    let last : length parts - 2 ≡ suc k = omega arith in
    ap (separator_down parts (codes "blobs")) last ∙ separator_down_blobs parts k

-- A loop that finds "blobs" from the third part on makes the operation one of the two.
pub operation_from-blobs :
    (parts : List Bytes) (rounds i : ℕ)
    → blobs_up parts rounds i ≡ true
    → (operation_from parts rounds i ≡ codes "blobs")
      ⊎ (operation_from parts rounds i ≡ codes "manifests")
unfolding blobs_up operation_from
operation_from-blobs parts zero i h = cc
operation_from-blobs parts (suc rounds) i h =
    ground (arith, operation_from-blobs parts rounds (i + 1))
