-- ===== src/Paths.antt =====
-- How paths are classified: `metricPath` and `hasRegistryPathSeparator` of main.go,
-- `backendOperation` of pkg/redirect/redirect.go and `isBlobRequest` of
-- pkg/redirect/rate_limiter.go.
pub mod Loops
pub mod Blobs
mod Tests
use registry_redirect.Prelude.{
  ℕ, zero, suc, ◌+◌, ◌-◌, Bool, true, false, ◌&&◌, ◌||◌, not, List, [], ◌∷◌, Bytes, Bytes-discrete,
  codes, ltb, leb, ite, if◌then◌else◌, length,
}
use registry_redirect.Strings.{split, trim_slashes}

-- `a == b` on strings.
abbrev pub bytes_eq : Bytes → Bytes → Bool
bytes_eq a b = ite (Bytes-discrete a b) true false

-- `parts[i]`; the code stays within the bounds.
unfoldable pub nth : ℕ → List Bytes → Bytes
nth i [] = []
nth zero (part ∷ parts) = part
nth (suc i) (part ∷ parts) = nth i parts

-- `strings.Split(strings.Trim(path, "/"), "/")`.
unfoldable pub path_parts : Bytes → List Bytes
path_parts path = split b'/' (trim_slashes path)

-- The loop `for i := …; i >= 2; i--` of `hasRegistryPathSeparator`.
unfoldable pub separator_down : List Bytes → Bytes → ℕ → Bool
separator_down parts separator zero = false
separator_down parts separator (suc i) =
    leb 2 (suc i) && (bytes_eq (nth (suc i) parts) separator || separator_down parts separator i)

unfoldable pub has_registry_path_separator : List Bytes → Bytes → Bool
has_registry_path_separator parts separator = separator_down parts separator (length parts - 2)

-- `len(parts) >= n && parts[len(parts)-2] == "tags" && parts[len(parts)-1] == "list"`.
unfoldable pub is_tags_list : ℕ → List Bytes → Bool
is_tags_list n parts =
    leb n (length parts)
    && bytes_eq (nth (length parts - 2) parts) (codes "tags")
    && bytes_eq (nth (length parts - 1) parts) (codes "list")

-- `metricPath` past its switch.
unfoldable pub metric_parts : List Bytes → Bytes
metric_parts parts =
    if ltb (length parts) 4 || not (bytes_eq (nth 0 parts) (codes "v2"))
    then codes "unknown"
    else if is_tags_list 5 parts
    then codes "/v2/{repo}/tags/list"
    else if has_registry_path_separator parts (codes "manifests")
    then codes "/v2/{repo}/manifests/{tagOrDigest}"
    else if has_registry_path_separator parts (codes "blobs")
    then codes "/v2/{repo}/blobs/{digest}"
    else codes "unknown"

unfoldable pub metric_path : Bytes → Bytes
metric_path path =
    if bytes_eq path (codes "/")
    then codes "/"
    else if bytes_eq path (codes "/v2") || bytes_eq path (codes "/v2/")
    then codes "/v2"
    else if bytes_eq path (codes "/token")
    then codes "/token"
    else metric_parts (path_parts path)

-- The loop of `backendOperation`: the rounds left, and `i`.
unfoldable pub operation_from : List Bytes → ℕ → ℕ → Bytes
operation_from parts zero i = codes "other"
operation_from parts (suc rounds) i =
    let rest = operation_from parts rounds (i + 1) in
    if bytes_eq (nth i parts) (codes "manifests")
    then codes "manifests"
    else if bytes_eq (nth i parts) (codes "blobs")
    then codes "blobs"
    else rest

unfoldable pub operation_parts : List Bytes → Bytes
operation_parts parts =
    if ltb (length parts) 2
    then codes "other"
    else if is_tags_list 4 parts
    then codes "tags"
    else operation_from parts (length parts - 1 - 1) 1

unfoldable pub backend_operation : Bytes → Bytes
backend_operation path =
    if bytes_eq path (codes "/v2") || bytes_eq path (codes "/v2/")
    then codes "v2"
    else if bytes_eq path (codes "/token") || bytes_eq path (codes "/v2/token")
    then codes "token"
    else operation_parts (path_parts path)

-- The loop `for i := 2; i < len(parts)-1; i++` of `isBlobRequest`: the rounds left, and `i`.
unfoldable pub blobs_up : List Bytes → ℕ → ℕ → Bool
blobs_up parts zero i = false
blobs_up parts (suc rounds) i =
    bytes_eq (nth i parts) (codes "blobs") || blobs_up parts rounds (i + 1)

unfoldable pub is_blob_parts : List Bytes → Bool
is_blob_parts parts =
    if ltb (length parts) 4 || not (bytes_eq (nth 0 parts) (codes "v2"))
    then false
    else blobs_up parts (length parts - 1 - 2) 2

-- `isBlobRequest` on the path of the request.
unfoldable pub is_blob_request : Bytes → Bool
is_blob_request path = is_blob_parts (path_parts path)
