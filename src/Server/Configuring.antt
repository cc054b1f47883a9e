-- ===== src/Server/Configuring.antt =====
-- Which limits a server that starts enforces.
use registry_redirect.Prelude.{
  ℕ, ◌*◌, ◌≡◌, refl, subst, ◌⊎◌, inl, inr, Bool, true, false, not, ◌&&◌, Bool-cases, Option,
  Option-cases, some, List, [], ◌∷◌, Bytes, codes, arith, pos, pos_part, if◌then◌else◌,
}
use registry_redirect.BlobCache.{Store, num_counters}
use registry_redirect.Config.{LoadError, Reader, load, split_ip_rate_limit_config_paths}
use registry_redirect.Options.{Options, second, default_options, with_defaults, positive_or}
use registry_redirect.RateLimiter.Deps.{Deps}
use registry_redirect.RateLimiter.Limits.{Override}
use registry_redirect.RateLimiter.State.{new_ip_rate_limiter}
use registry_redirect.Redirect.{Redirect}
use registry_redirect.Server.{
  default_tracker_limit, new_limiter, options_of, redirect_options, new_redirect, new_with_options,
  serve,
}
use registry_redirect.Tracker

-- Where the overrides of a limiter come from: the configuration files, or nowhere, where no file is
-- named, or where one does not exist and its path is the default.
pub data IsConfigured (deps : Deps) (reader : Reader deps) (missing : LoadError → Bool)
    (was_set : Bool) (paths : List Bytes) : List (Override deps) → Type 0 where
  unnamed : paths ≡ [] → IsConfigured deps reader missing was_set paths []
  defaulted :
      (e : LoadError)
      → load deps reader paths ≡ inl e
      → missing e ≡ true
      → was_set ≡ false
      → IsConfigured deps reader missing was_set paths []
  loaded :
      (overrides : List (Override deps))
      → load deps reader paths ≡ inr overrides
      → IsConfigured deps reader missing was_set paths overrides

sum_cases : {A B : Type 0} → (l : A ⊎ B) → ((a : A) × (l ≡ inl a)) ⊎ ((b : B) × (l ≡ inr b))
sum_cases (inl a) = inl (a, refl)
sum_cases (inr b) = inr (b, refl)

module _ (deps : Deps) {T : Type 0} where
  -- The default options with some overrides.
  abbrev overriding : T → List (Override deps) → Options T (Override deps)
  overriding t overrides =
      let opts : Options T (Override deps) = default_options t in
      record opts { rate_limit = record (opts.rate_limit) { ip_overrides = overrides } }

  options_of_lem :
      (reader : Reader deps) (missing : LoadError → Bool) (t : T) (was_set : Bool)
      (paths : List Bytes) (opts : Options T (Override deps))
      → options_of deps reader missing t was_set paths ≡ inr opts
      → (overrides : List (Override deps)) × (opts ≡ overriding t overrides)
        × IsConfigured deps reader missing was_set paths overrides
  unfolding options_of default_options
  options_of_lem reader missing t was_set [] opts h = ([], ground arith, unnamed refl)
  options_of_lem reader missing t was_set (path ∷ paths) opts h =
      elim (sum_cases (load deps reader (path ∷ paths))) [
        | inl (e, bad) ↦ elim (Bool-cases (missing e && not was_set)) [
          | inl passed ↦ ([], ground arith, defaulted e bad (ground arith) (ground arith))
          | inr failed ↦ absurd (ground arith)
        ]
        | inr (overrides, good) ↦ (overrides, ground arith, loaded overrides good)
      ]

module _ (deps : Deps) {T : Type 0} where
  -- The options with the tracker of `serve`.
  abbrev tracked : Options T (Override deps) → Options T (Override deps)
  tracked o = record o {
    rate_limit = record (o.rate_limit) {
      limited_ips = some (Tracker.init (pos default_tracker_limit));
    };
  }

module _ (deps : Deps) {T : Type 0} (store : Store) where
  new_redirect-limiter :
      (new_store : ℕ → ℕ → Option store.State) (host repo prefix : Bytes)
      (o : Options T (Override deps)) (s : Redirect deps store)
      → new_redirect deps store new_store host repo prefix o ≡ some s
      → s.rate_limiter ≡ new_limiter deps o.rate_limit
  unfolding new_redirect
  new_redirect-limiter new_store host repo prefix o s h =
      let size = pos_part o.blob_cache.max_bytes in
      elim (Bool-cases o.blob_cache.disabled) [
        | inl off ↦ ground arith
        | inr on ↦ elim (Option-cases (new_store (num_counters size) size)) [
          | inl failed ↦ absurd (ground arith)
          | inr (made, fine) ↦ ground arith
        ]
      ]

  -- A server that starts limits every client: to 240 requests a minute with bursts of 480, for at most
  -- 10000 clients that are forgotten after ten idle minutes, but for the clients in the ranges of the
  -- overrides, and it tracks up to 50 refused clients. The overrides are those of all the configuration
  -- files that are named, and none only where no file is named, or where the flag was not given and a
  -- file does not exist.
  pub serve_limits :
      (new_store : ℕ → ℕ → Option store.State) (reader : Reader deps) (missing : LoadError → Bool)
      (t : T) (was_set : Bool) (value : Bytes) (gcr : Bool) (repo prefix : Bytes)
      (s : Redirect deps store)
      → serve deps store new_store reader missing t was_set value gcr repo prefix ≡ inr (some s)
      → (overrides : List (Override deps)) × IsConfigured deps reader missing was_set
          (split_ip_rate_limit_config_paths value)
          overrides
        × (s.rate_limiter
            ≡ some (
                new_ip_rate_limiter deps (record {
                  requests_per_minute = pos 240;
                  burst = pos 480;
                  idle_ttl = 600 * second;
                  max_ips = pos 10000;
                  ip_overrides = overrides;
                  limited_ips = some (Tracker.init (pos 50));
                })))
  unfolding serve redirect_options new_with_options with_defaults default_options positive_or
  serve_limits new_store reader missing t was_set value gcr repo prefix s h =
      elim (sum_cases (redirect_options deps reader missing t was_set value)) [
        | inl (e, bad) ↦ absurd (ground arith)
        | inr (opts, good) ↦
            let (overrides, same, configured) =
              options_of_lem deps reader missing t was_set (split_ip_rate_limit_config_paths value)
                opts good in
            let host = if gcr then codes "gcr.io" else codes "ghcr.io" in
            let made : new_redirect deps store new_store host repo prefix
                  (with_defaults t (tracked deps opts))
                ≡ some s =
              ground arith in
            let limiter =
              new_redirect-limiter new_store host repo prefix (with_defaults t (tracked deps opts))
                s made in
            (
              overrides,
              configured,
              subst
                  (λ o.
                    s.rate_limiter ≡ new_limiter deps (with_defaults t (tracked deps o)).rate_limit)
                  same limiter,
            )
      ]
