-- ===== src/Header.antt =====
-- Go's `http.Header` as the handlers and caches use it: a map from canonical keys to lists of
-- values, with `Get`, `Set`, `Add`, `Del` and the size that the caches charge for a header.
use registry_redirect.Prelude.{
  ℕ, ◌+◌, ◌-◌, ◌≡◌, refl, List, [], ◌∷◌, ◌++◌, Bool, true, false, ◌&&◌, ◌||◌, Bytes, codes,
  Bytes-discrete, leb, ◌==◌, if◌then◌else◌, length, none, some,
}
use registry_redirect.GoMap.{lookup, insert, erase}

abbrev pub Header : Type 0
Header = List (Bytes × List Bytes)

-- `validHeaderFieldByte` of net/textproto: the token characters.
abbrev is_letter_or_digit : ℕ → Bool
is_letter_or_digit b =
    leb b'a' b && leb b b'z' || leb b'A' b && leb b b'Z' || leb b'0' b && leb b b'9'

abbrev member : ℕ → Bytes → Bool
member b [] = false
member b (c ∷ cs) = b == c || member b cs

unfoldable is_token_byte : ℕ → Bool
is_token_byte b = is_letter_or_digit b || member b (codes "!#$%&'*+-.^_`|~")

unfoldable all_token : Bytes → Bool
unfolding is_token_byte
all_token [] = true
all_token (b ∷ bs) = is_token_byte b && all_token bs

-- `validMethod` of net/http, with the empty method that stands for GET.
unfoldable pub is_method : Bytes → Bool
unfolding all_token
is_method m = all_token m

-- The first letter and each letter after a hyphen become upper case, the others lower case.
unfoldable canonical_from : Bool → Bytes → Bytes
canonical_from upper [] = []
canonical_from upper (b ∷ bs) =
    (if upper
      then (if leb b'a' b && leb b b'z' then b - 32 else b)
      else (if leb b'A' b && leb b b'Z' then b + 32 else b))
    ∷ canonical_from (b == b'-') bs

-- `textproto.CanonicalMIMEHeaderKey`: a key that is no token stays as it is.
unfoldable pub canonical : Bytes → Bytes
unfolding all_token canonical_from
canonical k = if all_token k then canonical_from true k else k

-- `h[k]` with the nil slice for a missing key.
unfoldable pub values : Header → Bytes → List Bytes
values h k = elim (lookup Bytes-discrete k h) [ none ↦ [] | some vs ↦ vs ]

abbrev first : List Bytes → Bytes
first [] = []
first (v ∷ vs) = v

unfoldable pub get : Header → Bytes → Bytes
unfolding values canonical
get h k = first (values h (canonical k))

unfoldable pub set : Header → Bytes → Bytes → Header
unfolding canonical insert
set h k v = insert Bytes-discrete (canonical k) (v ∷ []) h

unfoldable pub add : Header → Bytes → Bytes → Header
unfolding values canonical insert
add h k v = insert Bytes-discrete (canonical k) (values h (canonical k) ++ v ∷ []) h

unfoldable pub del : Header → Bytes → Header
unfolding canonical erase
del h k = erase Bytes-discrete (canonical k) h

-- The inner loop of the two size functions: `size += len(value) + 4`.
unfoldable pub add_value_sizes : ℕ → List Bytes → ℕ
add_value_sizes size [] = size
add_value_sizes size (v ∷ vs) = add_value_sizes (size + (length v + 4)) vs

-- The outer loop: `size += len(key)` and the values.
unfoldable pub add_header_sizes : ℕ → Header → ℕ
unfolding add_value_sizes
add_header_sizes size [] = size
add_header_sizes size ((k, vs) ∷ h) = add_header_sizes (add_value_sizes (size + length k) vs) h

fly_key : canonical (codes "Fly-Client-IP") ≡ codes "Fly-Client-Ip"
unfolding canonical
fly_key = refl

get_test :
    get ((codes "X-Real-Ip", codes "1.2.3.4" ∷ []) ∷ []) (codes "x-real-IP") ≡ codes "1.2.3.4"
unfolding get Bytes-discrete lookup
get_test = refl
