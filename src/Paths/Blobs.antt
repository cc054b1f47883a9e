-- ===== src/Paths/Blobs.antt =====
-- The three classifications agree on blob requests.
use registry_redirect.Prelude.{
  suc, ◌-◌, ◌≤◌, ◌≡◌, refl, ap, true, false, ◌&&◌, List, Bytes, codes, arith, length, ltb, leb,
  Bool-cases, inl, inr, ◌⊎◌, Bytes-discrete,
}
use registry_redirect.Strings.{split, trim_slashes}
use registry_redirect.Paths.{
  bytes_eq, nth, path_parts, has_registry_path_separator, metric_parts, metric_path, operation_from,
  operation_parts, backend_operation, blobs_up, is_blob_parts, is_blob_request,
}
use registry_redirect.Paths.Loops.{has_registry_path_separator-blobs, operation_from-blobs}

-- The parts of a path are those of a blob request for the rate limiter exactly where there are
-- four or more, the first is `v2`, and the metrics find the separator `blobs` in them: the loop
-- up and the loop down agree.
pub is_blob_parts-eq-separator :
    (parts : List Bytes)
    → is_blob_parts parts ≡ (
        leb 4 (length parts)
        && bytes_eq (nth 0 parts) (codes "v2")
        && has_registry_path_separator parts (codes "blobs"))
unfolding is_blob_parts
is_blob_parts-eq-separator parts = elim (Bool-cases (leb 4 (length parts))) [
  | inl long ↦
      let h : 4 ≤ length parts = ground arith in
      ground (arith, has_registry_path_separator-blobs parts h)
  | inr short ↦ ground arith
]

metric_parts-blob :
    (parts : List Bytes)
    → is_blob_parts parts ≡ true
    → (metric_parts parts ≡ codes "/v2/{repo}/tags/list")
      ⊎ (metric_parts parts ≡ codes "/v2/{repo}/manifests/{tagOrDigest}")
      ⊎ (metric_parts parts ≡ codes "/v2/{repo}/blobs/{digest}")
unfolding metric_parts
metric_parts-blob parts h = ground (arith, is_blob_parts-eq-separator parts)

blob_of_metric_parts :
    (parts : List Bytes)
    → metric_parts parts ≡ codes "/v2/{repo}/blobs/{digest}"
    → is_blob_parts parts ≡ true
unfolding metric_parts
blob_of_metric_parts parts h = ground (arith, is_blob_parts-eq-separator parts)

-- No path with a label of its own is a blob request.
module _ where
  program : Unit {0}
  unfolding is_blob_request is_blob_parts path_parts trim_slashes split nth Bytes-discrete
  program = tt

  root_not_blob : is_blob_request (codes "/") ≡ false
  unfolding program
  root_not_blob = refl

  v2_not_blob : is_blob_request (codes "/v2") ≡ false
  unfolding program
  v2_not_blob = refl

  v2_slash_not_blob : is_blob_request (codes "/v2/") ≡ false
  unfolding program
  v2_slash_not_blob = refl

  token_not_blob : is_blob_request (codes "/token") ≡ false
  unfolding program
  token_not_blob = refl

  v2_token_not_blob : is_blob_request (codes "/v2/token") ≡ false
  unfolding program
  v2_token_not_blob = refl

not_special :
    (path special : Bytes)
    → is_blob_request special ≡ false
    → is_blob_request path ≡ true
    → bytes_eq path special ≡ false
not_special path special h k = ground arith

-- A request that the rate limiter exempts has the metrics label of a tag list, a manifest or a
-- blob, and a request with the label of a blob is exempt.
pub metric_path-blob :
    (path : Bytes)
    → (is_blob_request path ≡ true
        → (metric_path path ≡ codes "/v2/{repo}/tags/list")
          ⊎ (metric_path path ≡ codes "/v2/{repo}/manifests/{tagOrDigest}")
          ⊎ (metric_path path ≡ codes "/v2/{repo}/blobs/{digest}"))
      × (metric_path path ≡ codes "/v2/{repo}/blobs/{digest}" → is_blob_request path ≡ true)
unfolding metric_path is_blob_request
metric_path-blob path = (
  λ h.
      rw
        (
          not_special path (codes "/") root_not_blob h,
          not_special path (codes "/v2") v2_not_blob h,
          not_special path (codes "/v2/") v2_slash_not_blob h,
          not_special path (codes "/token") token_not_blob h,
          metric_path,
        )
        (metric_parts-blob (path_parts path) h),
  λ h. ground (arith, blob_of_metric_parts (path_parts path)),
)

operation_parts-blob :
    (parts : List Bytes)
    → is_blob_parts parts ≡ true
    → (operation_parts parts ≡ codes "tags")
      ⊎ (operation_parts parts ≡ codes "manifests")
      ⊎ (operation_parts parts ≡ codes "blobs")
unfolding is_blob_parts operation_parts
operation_parts-blob parts h =
    let k = length parts - 1 - 2 in
    let long : ltb (length parts) 4 ≡ false = ground arith in
    let found : blobs_up parts k 2 ≡ true = ground arith in
    let from_first : blobs_up parts (suc k) 1 ≡ true = unfold blobs_up in ground arith in
    let rounds : length parts - 1 - 1 ≡ suc k = ground arith in
    ground (
      arith,
      operation_from-blobs parts (suc k) 1 from_first,
      ap (λ r. operation_from parts r 1) rounds,
    )

-- A request that the rate limiter exempts counts as the backend operation `tags`, `manifests` or
-- `blobs`.
pub backend_operation-blob :
    (path : Bytes)
    → is_blob_request path ≡ true
    → (backend_operation path ≡ codes "tags")
      ⊎ (backend_operation path ≡ codes "manifests")
      ⊎ (backend_operation path ≡ codes "blobs")
unfolding backend_operation is_blob_request
backend_operation-blob path h =
    rw
      (
        not_special path (codes "/v2") v2_not_blob h,
        not_special path (codes "/v2/") v2_slash_not_blob h,
        not_special path (codes "/token") token_not_blob h,
        not_special path (codes "/v2/token") v2_token_not_blob h,
        backend_operation,
      )
      (operation_parts-blob (path_parts path) h)
