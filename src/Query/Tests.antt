-- ===== src/Query/Tests.antt =====
-- Queries and their encoding at two orders of one map.
use registry_redirect.Prelude.{◌≡◌, refl, [], ◌∷◌, Bytes-discrete, codes, arith}
use registry_redirect.GoMap.{lookup}
use registry_redirect.Query
use registry_redirect.Query.{
  Values, escape_byte, escape, insert_key, sort_keys, pairs_of, pairs, encode,
}
use registry_redirect.Query.Order.{IsSame}
use registry_redirect.Strings.{join, less_bytes}

program : Unit {0}
unfolding Bytes-discrete lookup join less_bytes escape_byte escape insert_key sort_keys pairs_of
    pairs encode Query.get
program = tt

abbrev query : Values
query = (codes "scope", codes "a:b c" ∷ []) ∷ (codes "n", codes "1" ∷ codes "~" ∷ []) ∷ []

abbrev other : Values
other = (codes "n", codes "1" ∷ codes "~" ∷ []) ∷ (codes "scope", codes "a:b c" ∷ []) ∷ []

encoded : encode query ≡ codes "n=1&n=~&scope=a%3Ab+c"
unfolding program
encoded = refl

first_value : Query.get query (codes "n") ≡ codes "1"
unfolding program
first_value = refl

query-IsSame : IsSame query other
unfolding lookup
query-IsSame k = ground arith
