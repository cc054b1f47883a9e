-- ===== src/Proxy/Addresses.antt =====
-- Where `proxy` of pkg/redirect/redirect.go sends a request: the prefix of the path, the URL of the
-- registry, and the way back, the links in the header of a reply.
use registry_redirect.Prelude.{
  Bool, not, ◌&&◌, Option, none, some, List, [], ◌∷◌, ◌++◌, Bytes, codes, if◌then◌else◌,
}
use registry_redirect.Header
use registry_redirect.Header.{Header}
use registry_redirect.Paths.{bytes_eq}
use registry_redirect.Query.{Values, encode}
use registry_redirect.Strings.{trim_prefix, has_prefix}
use registry_redirect.Tokens.{is_nil, slashed}

-- Whether the names of repositories must have the prefix.
abbrev pub needs_prefix : Bytes → Bytes → Bool
needs_prefix prefix host = not (is_nil prefix) && not (bytes_eq host (codes "registry.dagger.io"))

unfoldable pub upstream_base : Bytes → Bytes → Bytes
upstream_base host repo =
    (if bytes_eq host (codes "gcr.io")
      then codes "https://gcr.io/v2/"
      else codes "https://ghcr.io/v2/")
    ++ (if is_nil repo then [] else slashed repo)

-- The path at the registry, and none where the prefix is missing.
unfoldable pub trim_path : Bytes → Bytes → Bytes → Option Bytes
trim_path prefix host request_path =
    let path = trim_prefix request_path (codes "/v2/") in
    if needs_prefix prefix host
    then if has_prefix path (slashed prefix) then some (trim_prefix path (slashed prefix)) else none
    else some path

unfoldable pub with_query : Values → Bytes → Bytes
with_query query url =
    let encoded = encode query in if is_nil encoded then url else url ++ b'?' ∷ encoded

-- The value of a `Link` header, for the repository and under the prefix that the client uses.
unfoldable pub rewrite_link : Bytes → Bytes → Bytes → Bytes → Bytes
rewrite_link repo prefix host v =
    let ours = codes "</v2/" ++ repo in
    if has_prefix v ours
    then if needs_prefix prefix host
      then codes "</v2/" ++ (prefix ++ trim_prefix v ours)
      else codes "</v2" ++ trim_prefix v ours
    else v

-- The loops over the header of the reply.
unfoldable pub add_values : Bytes → Bytes → Bytes → Bytes → List Bytes → Header → Header
add_values repo prefix host k [] dst = dst
add_values repo prefix host k (v ∷ vs) dst =
    let value = if bytes_eq k (codes "Link") then rewrite_link repo prefix host v else v in
    add_values repo prefix host k vs (Header.add dst k value)

unfoldable pub add_headers : Bytes → Bytes → Bytes → Header → Header → Header
add_headers repo prefix host [] dst = dst
add_headers repo prefix host ((k, vs) ∷ src) dst =
    add_headers repo prefix host src (add_values repo prefix host k vs dst)
