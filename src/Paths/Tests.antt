-- ===== src/Paths/Tests.antt =====
-- Runs of the classifications, and their theorems at concrete paths.
use registry_redirect.Prelude.{◌≡◌, refl, Bytes, Bytes-discrete, codes, true, ◌⊎◌}
use registry_redirect.Strings.{split, trim_slashes}
use registry_redirect.Paths.{
  nth, path_parts, separator_down, has_registry_path_separator, metric_parts, metric_path,
  operation_from, operation_parts, backend_operation, blobs_up, is_blob_parts, is_blob_request,
  is_tags_list,
}
use registry_redirect.Paths.Blobs.{metric_path-blob}

program : Unit {0}
unfolding Bytes-discrete split trim_slashes nth path_parts separator_down
    has_registry_path_separator metric_parts metric_path operation_from operation_parts
    backend_operation blobs_up is_blob_parts is_blob_request is_tags_list
program = tt

abbrev blob : Bytes
blob = codes "/v2/a/blobs/s"

-- A repository whose last part is `blobs`.
abbrev tags : Bytes
tags = codes "/v2/blobs/blobs/tags/list"

metrics :
    (metric_path (codes "/v2/") ≡ codes "/v2")
    × (metric_path blob ≡ codes "/v2/{repo}/blobs/{digest}")
    × (metric_path tags ≡ codes "/v2/{repo}/tags/list")
    × (metric_path (codes "/v2/blobs/s") ≡ codes "unknown")
unfolding program
metrics = (refl, refl, refl, refl)

operations :
    (backend_operation (codes "/v2/token") ≡ codes "token")
    × (backend_operation blob ≡ codes "blobs")
    × (backend_operation tags ≡ codes "tags")
    × (backend_operation (codes "/v2/blobs/s") ≡ codes "blobs")
unfolding program
operations = (refl, refl, refl, refl)

tags_is_blob : is_blob_request tags ≡ true
unfolding program
tags_is_blob = refl

metric_path-blob_example :
    (is_blob_request blob ≡ true
      → (metric_path blob ≡ codes "/v2/{repo}/tags/list")
        ⊎ (metric_path blob ≡ codes "/v2/{repo}/manifests/{tagOrDigest}")
        ⊎ (metric_path blob ≡ codes "/v2/{repo}/blobs/{digest}"))
    × (metric_path blob ≡ codes "/v2/{repo}/blobs/{digest}" → is_blob_request blob ≡ true)
metric_path-blob_example = metric_path-blob blob
