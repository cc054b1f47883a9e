-- ===== src/Proxy/Links.antt =====
-- The links of a list of tags lead through the proxy to the pages that the registry means.
use registry_redirect.Prelude.{
  ℕ, All, List, ◌≡◌, ◌≢◌, refl, sym, ap, ◌∙◌, true, false, none, some, [], ◌∷◌, ◌++◌, Bytes, codes,
  arith, Bool-cases, inl, inr, if◌then◌else◌,
}
use registry_redirect.Paths.{bytes_eq}
use registry_redirect.Proxy.{needs_prefix, upstream_base, trim_path, rewrite_link}
use registry_redirect.Strings.{after_prefix, has_prefix}
use registry_redirect.Strings.Prefix.{has_prefix-append, trim_prefix-append}
use registry_redirect.Strings.{split, join}
use registry_redirect.Strings.Replace.{append_assoc}
use registry_redirect.Strings.SplitJoin.{IsFree, split-join}
use registry_redirect.Tokens.Sharing.{routed, repo_parts-routed}
use registry_redirect.Tokens.{repo_parts, slashed}

-- The server of a registry.
abbrev pub site : Bytes → Bytes
site host =
    if bytes_eq host (codes "gcr.io") then codes "https://gcr.io" else codes "https://ghcr.io"

-- The path under which a client finds what the registry has under `path` of the repository.
abbrev pub client_path : Bytes → Bytes → Bytes → Bytes
client_path prefix host path =
    codes "/v2/" ++ (if needs_prefix prefix host then slashed prefix ++ path else path)

pub trim_path-client :
    (prefix host path : Bytes) → trim_path prefix host (client_path prefix host path) ≡ some path
unfolding trim_path
trim_path-client prefix host path = elim (Bool-cases (needs_prefix prefix host)) [
  | inl needed ↦ ground (
    arith,
    trim_prefix-append (codes "/v2/") (slashed prefix ++ path),
    has_prefix-append (slashed prefix) path,
    trim_prefix-append (slashed prefix) path,
  )
  | inr free ↦ ground (arith, trim_prefix-append (codes "/v2/") path)
]

rewrite_link-append :
    (repo prefix host rest : Bytes)
    → rewrite_link repo prefix host (codes "</v2/" ++ (repo ++ rest)) ≡ (
        if needs_prefix prefix host
        then codes "</v2/" ++ (prefix ++ rest)
        else codes "</v2" ++ rest)
unfolding rewrite_link
rewrite_link-append repo prefix host rest =
    let found = has_prefix-append (codes "</v2/" ++ repo) rest in
    let left = trim_prefix-append (codes "</v2/" ++ repo) rest in
    rw (found, left, rewrite_link) refl

-- A link of the registry to a page of the repository, with or without more after the page's path, is
-- rewritten to a path of the proxy, under the prefix where clients must name it. A request for that path
-- goes to the very page to which the registry's link points.
pub link_followed :
    (registry repo prefix host path more : Bytes)
    → repo ≢ []
    → (rewrite_link repo prefix host (codes "</v2/" ++ (repo ++ b'/' ∷ (path ++ more)))
        ≡ b'<' ∷ (client_path prefix host path ++ more))
      × (trim_path prefix host (client_path prefix host path) ≡ some path)
      × (upstream_base registry repo ++ path
          ≡ site registry ++ (codes "/v2/" ++ (repo ++ b'/' ∷ path)))
unfolding upstream_base
link_followed registry [] prefix host path more h = absurd (h refl)
link_followed registry (b ∷ repo) prefix host path more h = (
  rewrite_link-append (b ∷ repo) prefix host (b'/' ∷ (path ++ more)) ∙ shown,
  trim_path-client prefix host path,
  based,
)
  where
    shown :
        (if needs_prefix prefix host
          then codes "</v2/" ++ (prefix ++ b'/' ∷ (path ++ more))
          else codes "</v2" ++ b'/' ∷ (path ++ more))
        ≡ b'<' ∷ (client_path prefix host path ++ more)
    shown = elim (Bool-cases (needs_prefix prefix host)) [
      | inl needed ↦ rw needed (
          ap (λ x. codes "</v2/" ++ x)
            (sym (append_assoc prefix (b'/' ∷ []) (path ++ more))
              ∙ sym (append_assoc (slashed prefix) path more)))
      | inr free ↦ rw free refl
    ]

    based :
        upstream_base registry (b ∷ repo) ++ path
        ≡ site registry ++ (codes "/v2/" ++ ((b ∷ repo) ++ b'/' ∷ path))
    based = elim (Bool-cases (bytes_eq registry (codes "gcr.io"))) [
      | inl gcr ↦
          rw (gcr, upstream_base)
            (ap (λ x. codes "https://gcr.io/v2/" ++ x) (append_assoc (b ∷ repo) (b'/' ∷ []) path))
      | inr ghcr ↦
          rw (ghcr, upstream_base)
            (ap (λ x. codes "https://ghcr.io/v2/" ++ x) (append_assoc (b ∷ repo) (b'/' ∷ []) path))
    ]

has_prefix-long : (a b : Bytes) → has_prefix (a ++ b) (slashed a) ≡ has_prefix b (b'/' ∷ [])
unfolding has_prefix after_prefix
has_prefix-long [] b = refl
has_prefix-long (x ∷ a) b = ground (arith, has_prefix-long a b)

-- Without a repository, and where clients must name the prefix, the link is rewritten to a path in which
-- no slash stands between the prefix and the page, and the proxy refuses a request for that path.
pub link_without_repo :
    (prefix host path more : Bytes)
    → needs_prefix prefix host ≡ true
    → has_prefix path (b'/' ∷ []) ≡ false
    → (rewrite_link [] prefix host (codes "</v2/" ++ (path ++ more))
        ≡ b'<' ∷ ((codes "/v2/" ++ (prefix ++ path)) ++ more))
      × (trim_path prefix host (codes "/v2/" ++ (prefix ++ path)) ≡ none)
unfolding trim_path
link_without_repo prefix host path more needed bare = (
  rewrite_link-append [] prefix host (path ++ more)
      ∙ rw needed (ap (λ x. codes "</v2/" ++ x) (sym (append_assoc prefix path more))),
  ground (arith, trim_prefix-append (codes "/v2/") (prefix ++ path), has_prefix-long prefix path),
)

-- On registry.dagger.io, where clients need not name the prefix, a repository whose first part is the
-- prefix keeps it on the way to the registry, while the token of such a request is asked for the
-- repository without it.
pub trim_path-repo_parts :
    (b : ℕ) (prefix kind ref part : Bytes) (parts : List Bytes)
    → All (IsFree b'/') (routed (b ∷ prefix) (part ∷ parts) kind ref)
    → (trim_path
          (b ∷ prefix)
          (codes "registry.dagger.io")
          (join b'/' (routed (b ∷ prefix) (part ∷ parts) kind ref))
        ≡ some (join b'/' ((b ∷ prefix) ∷ part ∷ parts ++ kind ∷ ref ∷ [])))
      × (repo_parts
            (b ∷ prefix)
            (split b'/' (join b'/' (routed (b ∷ prefix) (part ∷ parts) kind ref)))
          ≡ some (part ∷ parts))
unfolding trim_path
trim_path-repo_parts b prefix kind ref part parts free = (
  unfold join in
      ground (
        arith,
        trim_prefix-append (codes "/v2/")
            (join b'/' ((b ∷ prefix) ∷ part ∷ (parts ++ kind ∷ ref ∷ []))),
      ),
  ap (repo_parts (b ∷ prefix))
        (split-join b'/' [] (codes "v2" ∷ (b ∷ prefix) ∷ part ∷ (parts ++ kind ∷ ref ∷ [])) free)
      ∙ repo_parts-routed (b ∷ prefix) kind ref part parts,
)
