-- ===== src/Query.antt =====
-- `url.Values` of net/url: `Get`, `Set` and `Encode`, which gives the query of a token or registry
-- URL and with it the key of a cache entry.
pub mod Order
mod Tests
use registry_redirect.Prelude.{
  ℕ, ◌+◌, ◌-◌, ◌/◌, ◌%◌, Bool, true, false, ◌&&◌, ◌||◌, Option, none, some, List, [], ◌∷◌, ◌++◌,
  map, Bytes, Bytes-discrete, leb, ltb, ◌==◌, if◌then◌else◌,
}
use registry_redirect.GoMap.{lookup, insert}
use registry_redirect.Strings.{join, less_bytes}

abbrev pub Values : Type 0
Values = List (Bytes × List Bytes)

abbrev first : List Bytes → Bytes
first [] = []
first (v ∷ vs) = v

-- `vals.Get(key)` and `vals.Set(key, value)`.
unfoldable pub get : Values → Bytes → Bytes
get q key = elim (lookup Bytes-discrete key q) [ none ↦ [] | some vs ↦ first vs ]

unfoldable pub set : Values → Bytes → Bytes → Values
set q key value = insert Bytes-discrete key (value ∷ []) q

-- `QueryEscape`: letters, digits and the four marks stay, a space becomes a plus sign.
abbrev is_unreserved : ℕ → Bool
is_unreserved b =
    leb b'a' b && leb b b'z'
    || leb b'A' b && leb b b'Z'
    || leb b'0' b && leb b b'9'
    || b == b'-'
    || b == b'_'
    || b == b'.'
    || b == b'~'

abbrev hex_digit : ℕ → ℕ
hex_digit n = if ltb n 10 then b'0' + n else b'A' + (n - 10)

unfoldable pub escape_byte : ℕ → Bytes
escape_byte b =
    if is_unreserved b
    then b ∷ []
    else if b == 32
    then b'+' ∷ []
    else b'%' ∷ hex_digit (b / 16) ∷ hex_digit (b % 16) ∷ []

unfoldable pub escape : Bytes → Bytes
escape [] = []
escape (b ∷ s) = escape_byte b ++ escape s

-- The keys in increasing order, with their values.
unfoldable pub insert_key : Bytes × List Bytes → Values → Values
insert_key e [] = e ∷ []
insert_key e (f ∷ q) = if less_bytes f.0 e.0 then f ∷ insert_key e q else e ∷ f ∷ q

unfoldable pub sort_keys : Values → Values
sort_keys [] = []
sort_keys (e ∷ q) = insert_key e (sort_keys q)

unfoldable pub pairs_of : Bytes → List Bytes → List Bytes
pairs_of key [] = []
pairs_of key (v ∷ vs) = (escape key ++ b'=' ∷ escape v) ∷ pairs_of key vs

unfoldable pub pairs : Values → List Bytes
pairs [] = []
pairs ((key, vs) ∷ q) = pairs_of key vs ++ pairs q

unfoldable pub encode : Values → Bytes
encode q = join b'&' (pairs (sort_keys q))
