-- ===== src/Tokens/Sharing.antt =====
-- Clients and `getToken` ask for the token of a repository under one URL, and so share it.
use registry_redirect.Prelude.{
  ℕ, ◌-◌, ◌≡◌, refl, sym, ap, subst, ◌∙◌, some, List, [], ◌∷◌, ◌++◌, Bytes, Bytes-discrete, codes,
  arith, length, take, length-append, if◌then◌else◌,
}
use registry_redirect.GoMap.{IsMap, lookup, insert, insert-IsMap, lookup-insert}
use registry_redirect.Paths.{bytes_eq}
use registry_redirect.Query
use registry_redirect.Query.{Values, encode}
use registry_redirect.Query.Order.{IsSame, encode_same}
use registry_redirect.Strings.{join, replace_first}
use registry_redirect.Strings.Replace.{replace_first-slashed, replace_first-append, append_assoc}
use registry_redirect.Strings.SplitJoin.{IsFree}
use registry_redirect.Tokens.{
  is_nil, slashed, with_scope, token_values, pull_values, service_of, token_url, repo_parts,
}

-- The query of a client for a scope, as a map in any order.
abbrev pub client_values : Bytes → Bytes → Values
client_values host scope =
    (codes "scope", scope ∷ []) ∷ (codes "service", service_of host ∷ []) ∷ []

-- A repository as clients name it: under the prefix, if there is one.
abbrev pub public_name : Bytes → List Bytes → Bytes
public_name prefix parts =
    if is_nil prefix then join b'/' parts else slashed prefix ++ join b'/' parts

abbrev pub pull_scope : Bytes → Bytes
pull_scope name = codes "repository:" ++ (name ++ codes ":pull")

get_same : (q q' : Values) (k : Bytes) → IsSame q q' → Query.get q k ≡ Query.get q' k
unfolding Query.get
get_same q q' k same = rw (same k, Query.get) refl

set-IsSame :
    (q q' : Values) (key value : Bytes)
    → IsSame q q'
    → IsSame (Query.set q key value) (Query.set q' key value)
unfolding Query.set
set-IsSame q q' key value same k = ground (
  arith,
  same k,
  lookup-insert Bytes-discrete k key (value ∷ []) q,
  lookup-insert Bytes-discrete k key (value ∷ []) q',
)

with_scope-IsSame :
    (old new : Bytes) (q q' : Values)
    → IsSame q q'
    → IsSame (with_scope old new q) (with_scope old new q')
unfolding with_scope
with_scope-IsSame old new q q' same =
    let value : Bytes → Bytes = λ x. replace_first x old new in
    subst
      (λ x.
        IsSame (Query.set q (codes "scope") (value (Query.get q (codes "scope"))))
          (Query.set q' (codes "scope") (value x)))
      (get_same q q' (codes "scope") same)
      (set-IsSame q q' (codes "scope") (value (Query.get q (codes "scope"))) same)

with_scope-IsMap :
    (old new : Bytes) (q : Values)
    → IsMap Bytes-discrete q
    → IsMap Bytes-discrete (with_scope old new q)
unfolding with_scope Query.set
with_scope-IsMap old new q h = insert-IsMap Bytes-discrete (codes "scope") _ q h

-- What a rewriting of the scope leaves of a client's query.
with_scope-client :
    (old new name name' host : Bytes)
    → replace_first (pull_scope name) old new ≡ pull_scope name'
    → with_scope old new (client_values host (pull_scope name))
      ≡ client_values host (pull_scope name')
unfolding with_scope Query.set Query.get lookup insert Bytes-discrete
with_scope-client old new name name' host h = ap (client_values host) h

scope-IsFree : IsFree b'/' (codes "repository:")
scope-IsFree = ground arith

trimmed :
    (prefix rest : Bytes)
    → IsFree b'/' prefix
    → replace_first (pull_scope (slashed prefix ++ rest)) (slashed prefix) [] ≡ pull_scope rest
trimmed prefix rest h =
    ap (λ x. replace_first (codes "repository:" ++ x) (slashed prefix) [])
      (ap (λ x. x ++ codes ":pull") (append_assoc prefix (b'/' ∷ []) rest)
        ∙ append_assoc prefix (b'/' ∷ rest) (codes ":pull"))
    ∙ replace_first-slashed b'/' (codes "repository:") prefix (rest ++ codes ":pull") []
        scope-IsFree h

named :
    (repo rest : Bytes)
    → replace_first (pull_scope rest) (codes "repository:") (codes "repository:" ++ slashed repo)
      ≡ pull_scope (slashed repo ++ rest)
named repo rest =
    replace_first-append b'r' (codes "epository:") (rest ++ codes ":pull")
      (codes "repository:" ++ slashed repo)
    ∙ ap (λ x. codes "repository:" ++ x) (sym (append_assoc (slashed repo) rest (codes ":pull")))

-- The name of the repository at the registry.
abbrev upstream_name : Bytes → List Bytes → Bytes
upstream_name repo parts = if is_nil repo then join b'/' parts else slashed repo ++ join b'/' parts

token_values-client :
    (host prefix repo : Bytes) (parts : List Bytes)
    → IsFree b'/' prefix
    → token_values prefix repo (client_values host (pull_scope (public_name prefix parts)))
      ≡ client_values host (pull_scope (upstream_name repo parts))
unfolding token_values
token_values-client host [] [] parts h = refl
token_values-client host [] (b ∷ repo) parts h =
    with_scope-client _ _ (join b'/' parts) (slashed (b ∷ repo) ++ join b'/' parts) host
      (named (b ∷ repo) (join b'/' parts))
token_values-client host (a ∷ prefix) [] parts h =
    with_scope-client _ _ (slashed (a ∷ prefix) ++ join b'/' parts) (join b'/' parts) host
      (trimmed (a ∷ prefix) (join b'/' parts) h)
token_values-client host (a ∷ prefix) (b ∷ repo) parts h =
    ap (with_scope (codes "repository:") (codes "repository:" ++ slashed (b ∷ repo))) (
      with_scope-client _ _ (slashed (a ∷ prefix) ++ join b'/' parts) (join b'/' parts) host
        (trimmed (a ∷ prefix) (join b'/' parts) h))
    ∙ with_scope-client _ _ (join b'/' parts) (slashed (b ∷ repo) ++ join b'/' parts) host
        (named (b ∷ repo) (join b'/' parts))

pull_values-client :
    (host repo part : Bytes) (parts : List Bytes)
    → pull_values host repo (part ∷ parts)
      ≡ client_values host (pull_scope (upstream_name repo (part ∷ parts)))
unfolding pull_values
pull_values-client host [] part parts = refl
pull_values-client host (b ∷ repo) part parts =
    unfold join in
    ap (λ x. client_values host (pull_scope x))
      (sym (append_assoc (b ∷ repo) (b'/' ∷ []) (join b'/' (part ∷ parts))))

token_values-IsSame :
    (prefix repo : Bytes) (q q' : Values)
    → IsSame q q'
    → IsSame (token_values prefix repo q) (token_values prefix repo q')
unfolding token_values
token_values-IsSame [] [] q q' h = h
token_values-IsSame [] (b ∷ repo) q q' h = with_scope-IsSame _ _ q q' h
token_values-IsSame (a ∷ prefix) [] q q' h = with_scope-IsSame _ _ q q' h
token_values-IsSame (a ∷ prefix) (b ∷ repo) q q' h =
    with_scope-IsSame _ _ _ _ (with_scope-IsSame _ _ q q' h)

token_values-IsMap :
    (prefix repo : Bytes) (q : Values)
    → IsMap Bytes-discrete q
    → IsMap Bytes-discrete (token_values prefix repo q)
unfolding token_values
token_values-IsMap [] [] q h = h
token_values-IsMap [] (b ∷ repo) q h = with_scope-IsMap _ _ q h
token_values-IsMap (a ∷ prefix) [] q h = with_scope-IsMap _ _ q h
token_values-IsMap (a ∷ prefix) (b ∷ repo) q h = with_scope-IsMap _ _ _ (with_scope-IsMap _ _ q h)

client_values-IsMap : (host scope : Bytes) → IsMap Bytes-discrete (client_values host scope)
unfolding lookup Bytes-discrete
client_values-IsMap host scope = (refl, (refl, tt))

-- The parts of the path of a request that `proxy` serves.
abbrev pub routed : Bytes → List Bytes → Bytes → Bytes → List Bytes
routed prefix parts kind ref =
    [] ∷ codes "v2" ∷ ((if is_nil prefix then parts else prefix ∷ parts) ++ kind ∷ ref ∷ [])

take-append : (xs ys : List Bytes) (n : ℕ) → n ≡ length xs → take n (xs ++ ys) ≡ xs
take-append [] ys n h = rw h refl
take-append (x ∷ xs) ys n h = rw h (ap (◌∷◌ x) (take-append xs ys (length xs) refl))

pub repo_parts-routed :
    (prefix kind ref part : Bytes) (parts : List Bytes)
    → repo_parts prefix (routed prefix (part ∷ parts) kind ref) ≡ some (part ∷ parts)
unfolding repo_parts
repo_parts-routed [] kind ref part parts =
    let sizes = length-append (part ∷ parts) (kind ∷ ref ∷ []) in
    ground (
      arith,
      take-append (part ∷ parts) (kind ∷ ref ∷ []) (length ((part ∷ parts) ++ kind ∷ ref ∷ []) - 2),
    )
repo_parts-routed (a ∷ prefix) kind ref part parts =
    let sizes = length-append ((a ∷ prefix) ∷ part ∷ parts) (kind ∷ ref ∷ []) in
    ground (
      arith,
      take-append ((a ∷ prefix) ∷ part ∷ parts) (kind ∷ ref ∷ [])
          (length (((a ∷ prefix) ∷ part ∷ parts) ++ kind ∷ ref ∷ []) - 2),
    )

-- `getToken` for a request for a repository asks for the repository's parts. A client that asks /token
-- for the right to pull that repository, which it names under the prefix if there is one, and whose
-- query has the scope and the service in any order, is led to the same URL of the registry, and so to
-- the same entry of the cache. The prefix has no slash.
pub token_url_shared :
    (host prefix repo kind ref part : Bytes) (parts : List Bytes) (q : Values)
    → IsFree b'/' prefix
    → IsMap Bytes-discrete q
    → IsSame q (client_values host (pull_scope (public_name prefix (part ∷ parts))))
    → (repo_parts prefix (routed prefix (part ∷ parts) kind ref) ≡ some (part ∷ parts))
      × (token_url host (token_values prefix repo q)
          ≡ token_url host (pull_values host repo (part ∷ parts)))
unfolding token_url
token_url_shared host prefix repo kind ref part parts q h m same =
    let name = pull_scope (public_name prefix (part ∷ parts)) in
    let client = client_values host name in
    let through =
      encode_same (token_values prefix repo q) (token_values prefix repo client)
        (token_values-IsMap prefix repo q m)
        (token_values-IsMap prefix repo client (client_values-IsMap host name))
        (token_values-IsSame prefix repo q client same) in
    let own =
      token_values-client host prefix repo (part ∷ parts) h
      ∙ sym (pull_values-client host repo part parts) in
    (
      repo_parts-routed prefix kind ref part parts,
      ap
          (λ x.
            (if bytes_eq host (codes "gcr.io")
              then codes "https://gcr.io/v2/token"
              else codes "https://ghcr.io/token")
            ++ (b'?' ∷ x))
          (through ∙ ap encode own),
    )
