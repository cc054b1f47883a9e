-- ===== src/Tokens/Queries.antt =====
-- The queries of token URLs of pkg/redirect/anonymous_token.go: `tokenURL`, and the scopes that `token`
-- rewrites and `getToken` makes.
use registry_redirect.Prelude.{
  ◌-◌, Bool, true, false, Option, none, some, List, [], ◌∷◌, ◌++◌, Bytes, codes, ltb, if◌then◌else◌,
  length, take, drop,
}
use registry_redirect.Paths.{bytes_eq}
use registry_redirect.Query
use registry_redirect.Query.{Values, encode}
use registry_redirect.Strings.{join, replace_first}

unfoldable pub token_url : Bytes → Values → Bytes
token_url host query =
    (if bytes_eq host (codes "gcr.io")
      then codes "https://gcr.io/v2/token"
      else codes "https://ghcr.io/token")
    ++ (b'?' ∷ encode query)

-- A rewriting of the scope of a query.
unfoldable pub with_scope : Bytes → Bytes → Values → Values
with_scope old new q =
    Query.set q (codes "scope") (replace_first (Query.get q (codes "scope")) old new)

abbrev pub is_nil : Bytes → Bool
is_nil [] = true
is_nil (b ∷ s) = false

abbrev pub slashed : Bytes → Bytes
slashed s = s ++ b'/' ∷ []

-- The query of the registry from that of a client: without the prefix, and with the repository.
unfoldable pub token_values : Bytes → Bytes → Values → Values
token_values prefix repo q =
    let trimmed = if is_nil prefix then q else with_scope (slashed prefix) [] q in
    if is_nil repo
    then trimmed
    else with_scope (codes "repository:") (codes "repository:" ++ slashed repo) trimmed

-- The parts of the path that name the repository, and none where a slice or an index is out of its
-- bounds, at which the code panics.
unfoldable pub repo_parts : Bytes → List Bytes → Option (List Bytes)
repo_parts prefix parts =
    if ltb (length parts) 4
    then none
    else let named = take (length parts - 4) (drop 2 parts) in
      if is_nil prefix then some named else (elim named [
        | [] ↦ none
        | part ∷ more ↦ some (if bytes_eq part prefix then more else part ∷ more)
      ])

abbrev pub service_of : Bytes → Bytes
service_of host = if bytes_eq host (codes "gcr.io") then codes "gcr.io" else codes "ghcr.io"

unfoldable pub pull_values : Bytes → Bytes → List Bytes → Values
pull_values host repo parts =
    let named = if is_nil repo then parts else repo ∷ parts in
    (codes "scope", (codes "repository:" ++ join b'/' named ++ codes ":pull") ∷ [])
    ∷ (codes "service", service_of host ∷ [])
    ∷ []
