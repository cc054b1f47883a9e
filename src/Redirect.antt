-- ===== src/Redirect.antt =====
-- `redirect` of pkg/redirect/redirect.go, the state that the handlers share, and what they ask of the
-- world: the registry, and the parsers of URLs and JSON.
use registry_redirect.Prelude.{
  ℕ, false, Option, none, some, List, Bytes, ◌⊎◌, inl, inr, if◌then◌else◌,
}
use registry_redirect.BlobCache.{Store}
use registry_redirect.Header.{Header, is_method}
use registry_redirect.Http.{Writer, Body, Failure, Outgoing, Back}
use registry_redirect.ManifestCache
use registry_redirect.RateLimiter.Deps.{Deps}
use registry_redirect.RateLimiter.State.{IpRateLimiter}
use registry_redirect.ResponseCache

-- `listResponse`.
pub record ListResponse : Type 0 where
  pub name : Bytes
  pub tags : List Bytes

-- The registry as the two clients see it: `client`, which follows redirects, and `proxy_client`, which
-- does not. `url_error` is the error of `url.Parse`, if any, and `url_text` the text of a parsed URL;
-- `method_error` is the text of the error for a bad method. The JSON of tokens and of tag lists is
-- decoded to a value or the text of an error.
pub record World : Type 0 where
  pub client : Outgoing → Back
  pub proxy_client : Outgoing → Back
  pub url_error : Bytes → Option Bytes
  pub url_text : Bytes → Bytes
  pub method_error : Bytes → Bytes
  pub status_text : ℕ → Bytes
  pub decode_token : Bytes → Failure ⊎ Bytes
  pub decode_list : Body → Bytes ⊎ ListResponse
  pub encode_list : ListResponse → Bytes

-- `newBackendRequest`, over `http.NewRequestWithContext`: the text of the error, or the request.
unfoldable pub new_backend_request : World → Bytes → Bytes → Header → Bytes ⊎ Outgoing
new_backend_request world method url header =
    if is_method method
    then (elim (world.url_error url) [
      | some text ↦ inl text
      | none ↦ inr (record { method = method; url = url; header = header })
    ])
    else inl (world.method_error method)

-- An error that is neither a timeout nor a canceled context.
abbrev pub plain : Bytes → Failure
plain text = record { text = text; canceled = false; deadline_exceeded = false; timeout = false }

module _ (deps : Deps) (store : Store) where
  -- `redirect`, without its two clients, which `World` has, and the group of token fetches.
  pub record Redirect : Type 0 where
    pub host : Bytes
    pub repo : Bytes
    pub prefix : Bytes
    pub rate_limiter : Option (IpRateLimiter deps)
    pub manifest_cache : Option ManifestCache.Cache
    pub blob_cache : Option store.State
    pub token_cache : Option ResponseCache.Cache
    pub v2_cache : Option ResponseCache.Cache

  -- What a handler leaves: the state, the reply, and the requests that went to the registry, in order.
  pub record Result : Type 0 where
    pub server : Redirect
    pub writer : Writer
    pub asked : List Outgoing
