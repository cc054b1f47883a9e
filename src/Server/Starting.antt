-- ===== src/Server/Starting.antt =====
-- What a server that starts is like: its limiter, and its caches.
use registry_redirect.Prelude.{
  ℕ, ◌≡◌, subst, inl, inr, Bool, true, false, Bool-cases, Option, Option-cases, none, some, Bytes,
  arith, pos_part,
}
use registry_redirect.BlobCache
use registry_redirect.BlobCache.{Dates, Store, num_counters}
use registry_redirect.BlobCache.Fresh.{HoldsFresh}
use registry_redirect.GoMap.{lookup}
use registry_redirect.ManifestCache.Refines.{init-IsValid}
use registry_redirect.Options.{Options, ByteCacheOptions, with_defaults}
use registry_redirect.Options.Defaults.{with_defaults-IsComplete}
use registry_redirect.Proxy.Ending.{IsHeld}
use registry_redirect.Proxy.Granting.{IsSound}
use registry_redirect.RateLimiter.Bounds.{IsValid, new_ip_rate_limiter-IsValid}
use registry_redirect.RateLimiter.Deps.{Deps}
use registry_redirect.RateLimiter.Limits.{Override}
use registry_redirect.RateLimiter.State.{IpRateLimiter}
use registry_redirect.Redirect.{World, Redirect}
use registry_redirect.ResponseCache
use registry_redirect.Server.{
  anonymous_token_ttl, token_cache_max_entries, new_manifest_cache, new_response_cache,
  limiter_options, new_limiter, with_blobs, new_redirect, new_with_options,
}
use registry_redirect.Tokens.Cached.{IsGood}

-- A limiter, where there is one, is valid.
abbrev pub IsLimited : (deps : Deps) → Option (IpRateLimiter deps) → Type 0
IsLimited deps none = Unit
IsLimited deps (some l) = IsValid deps l

new_manifest_cache-IsHeld : (o : ByteCacheOptions) → IsHeld (new_manifest_cache o)
new_manifest_cache-IsHeld o = elim (Bool-cases o.disabled) [
  | inl off ↦ rw off tt
  | inr on ↦ rw on (init-IsValid (pos_part o.max_bytes)).0
]

new_response_cache-IsGood :
    (world : World) (now ttl max_entries : ℕ) (disabled : Bool)
    → IsGood world now (new_response_cache disabled ttl max_entries)
unfolding ResponseCache.init lookup
new_response_cache-IsGood world now ttl max_entries true = record {
  bounded = tt;
  good = λ t key e later found. absurd (ground arith);
}
new_response_cache-IsGood world now ttl max_entries false = record {
  bounded = record { is_map = tt; capped = omega arith };
  good = λ t key e later found. absurd (ground arith);
}

-- A new cache of ristretto is empty.
abbrev pub StartsEmpty : (store : Store) → (ℕ → ℕ → Option store.State) → Type 0
StartsEmpty store new_store =
    (counters max_cost : ℕ) (made : store.State)
    → new_store counters max_cost ≡ some made
    → (t : ℕ) (key : Bytes) → store.get t key made ≡ none

module _ (deps : Deps) (store : Store) (world : World) (dates : Dates) where
  -- What holds of a server at a time.
  pub record IsRunning (now : ℕ) (s : Redirect deps store) : Type 0 where
    pub sound : IsSound deps store world dates now s
    pub limited : IsLimited deps s.rate_limiter

module _ (deps : Deps) {T : Type 0} (store : Store) (world : World) (dates : Dates) where
  new_limiter-IsLimited :
      (t : T) (o : Options T (Override deps))
      → IsLimited deps (new_limiter deps (with_defaults t o).rate_limit)
  new_limiter-IsLimited t o = elim (Bool-cases (with_defaults t o).rate_limit.disabled) [
    | inl off ↦ rw off tt
    | inr on ↦ rw on (
        new_ip_rate_limiter-IsValid deps (limiter_options deps (with_defaults t o).rate_limit)
          (with_defaults-IsComplete t o).max_ips)
  ]

  with_blobs-IsRunning :
      (t : T) (host repo prefix : Bytes) (o : Options T (Override deps)) (now : ℕ)
      (blobs : Option store.State)
      → HoldsFresh store dates blobs
      → IsRunning deps store world dates now
          (with_blobs deps store host repo prefix (with_defaults t o) blobs)
  with_blobs-IsRunning t host repo prefix o now blobs h = record {
    sound = record {
      manifests = new_manifest_cache-IsHeld (with_defaults t o).manifest_cache;
      tokens =
          new_response_cache-IsGood world now anonymous_token_ttl token_cache_max_entries
            (with_defaults t o).token_cache_disabled;
      blobs = h;
    };
    limited = new_limiter-IsLimited t o;
  }

  -- Whatever the options, where ristretto's caches start empty, what can be read from the caches of a new
  -- handler is sound, and its limiter is valid.
  pub new_with_options-IsRunning :
      (new_store : ℕ → ℕ → Option store.State) (t : T) (host repo prefix : Bytes)
      (o : Options T (Override deps)) (now : ℕ) (s : Redirect deps store)
      → StartsEmpty store new_store
      → new_with_options deps store new_store t host repo prefix o ≡ some s
      → IsRunning deps store world dates now s
  unfolding new_with_options new_redirect BlobCache.get
  new_with_options-IsRunning new_store t host repo prefix o now s empty h =
      let opts = with_defaults t o in
      let size = pos_part opts.blob_cache.max_bytes in
      elim (Bool-cases opts.blob_cache.disabled) [
        | inl off ↦
            let same : with_blobs deps store host repo prefix opts none ≡ s = ground arith in
            subst (IsRunning deps store world dates now) same (
              with_blobs-IsRunning t host repo prefix o now none
                (λ at key e found. absurd (ground arith)))
        | inr on ↦ elim (Option-cases (new_store (num_counters size) size)) [
          | inl failed ↦ absurd (ground arith)
          | inr (made, fine) ↦
              let same : with_blobs deps store host repo prefix opts (some made) ≡ s =
                ground arith in
              subst (IsRunning deps store world dates now) same (
                with_blobs-IsRunning t host repo prefix o now (some made) (λ at key e found.
                  absurd (ground (arith, empty (num_counters size) size made fine at key))))
        ]
      ]
