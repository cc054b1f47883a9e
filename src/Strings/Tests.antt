-- ===== src/Strings/Tests.antt =====
-- Runs of the string functions.
use registry_redirect.Prelude.{◌≡◌, refl, [], ◌∷◌, codes, true, false}
use registry_redirect.Strings.{
  split, trim_slashes, trim_space, has_prefix, trim_prefix, contains, replace_first,
}

split_test : split b'/' (codes "/v2//a/") ≡ [] ∷ codes "v2" ∷ [] ∷ codes "a" ∷ [] ∷ []
unfolding split
split_test = refl

trim_tests :
    (trim_slashes (codes "//v2/a/") ≡ codes "v2/a") × (trim_space (codes " x y ") ≡ codes "x y")
unfolding trim_slashes trim_space
trim_tests = (refl, refl)

prefix_tests :
    (has_prefix (codes "/v2/x") (codes "/v2/") ≡ true)
    × (trim_prefix (codes "/v2/x") (codes "/v2/") ≡ codes "x")
    × (trim_prefix (codes "/x") (codes "/v2/") ≡ codes "/x")
    × (contains (codes "a/blobs/b") (codes "/blobs/") ≡ true)
    × (contains (codes "a/blobs") (codes "/blobs/") ≡ false)
    × (replace_first (codes "xabyab") (codes "ab") (codes "-") ≡ codes "x-yab")
unfolding has_prefix trim_prefix contains replace_first
prefix_tests = (refl, refl, refl, refl, refl, refl)
