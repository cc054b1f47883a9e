-- ===== src/Strings/Order.antt =====
-- The order of strings is a strict total order.
use registry_redirect.Prelude.{◌≡◌, refl, true, false, [], ◌∷◌, Bytes, arith}
use registry_redirect.Strings.{less_bytes}

pub less_bytes_asym : (a b : Bytes) → less_bytes a b ≡ true → less_bytes b a ≡ false
unfolding less_bytes
less_bytes_asym [] [] h = refl
less_bytes_asym [] (b ∷ ys) h = refl
less_bytes_asym (a ∷ xs) [] h = cc
less_bytes_asym (a ∷ xs) (b ∷ ys) h = ground (arith, less_bytes_asym xs ys)

pub less_bytes_trans :
    (a b c : Bytes) → less_bytes b a ≡ false → less_bytes c b ≡ false → less_bytes c a ≡ false
unfolding less_bytes
less_bytes_trans [] [] [] h k = refl
less_bytes_trans [] b [] h k = refl
less_bytes_trans [] b (c ∷ zs) h k = refl
less_bytes_trans (a ∷ xs) [] c h k = cc
less_bytes_trans (a ∷ xs) (b ∷ ys) [] h k = cc
less_bytes_trans (a ∷ xs) (b ∷ ys) (c ∷ zs) h k = ground (arith, less_bytes_trans xs ys zs)

-- Of two different texts one stands before the other.
pub less_bytes_connex : (a b : Bytes) → less_bytes a b ≡ false → less_bytes b a ≡ false → a ≡ b
unfolding less_bytes
less_bytes_connex [] [] h k = refl
less_bytes_connex [] (b ∷ ys) h k = cc
less_bytes_connex (a ∷ xs) [] h k = cc
less_bytes_connex (a ∷ xs) (b ∷ ys) h k = ground (arith, less_bytes_connex xs ys)
