-- ===== src/Decimal.antt =====
-- `strconv.Itoa` on the numbers that are not negative.
use registry_redirect.Prelude.{
  ℕ, zero, suc, ◌+◌, ◌/◌, ◌%◌, ltb, if◌then◌else◌, [], ◌∷◌, Bytes, codes, ◌≡◌, refl,
}

-- The digits of a number, in front of what follows; the fuel bounds their count.
unfoldable pub digits : ℕ → ℕ → Bytes → Bytes
digits zero n rest = rest
digits (suc fuel) n rest =
    let more = digits fuel (n / 10) ((b'0' + n % 10) ∷ rest) in
    if ltb n 10 then (b'0' + n) ∷ rest else more

-- A number has no more digits than its value plus one.
unfoldable pub itoa : ℕ → Bytes
unfolding digits
itoa n = digits (suc n) n []

itoa_test : itoa 308 ≡ codes "308"
unfolding itoa
itoa_test = refl
