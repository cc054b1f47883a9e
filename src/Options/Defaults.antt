-- ===== src/Options/Defaults.antt =====
-- What the defaults guarantee, and what they leave alone.
use registry_redirect.Prelude.{
  ℕ, zero, suc, ◌≡◌, ◌≢◌, refl, true, Option, none, some, ℤ, pos, negsuc, is_pos, arith,
}
use registry_redirect.Options.{
  Options, HttpClient, default_options, positive_or, timeout_or, or_some, client_with_defaults,
  with_defaults,
}

positive_or-pos : (x : ℤ) (n : ℕ) → is_pos (positive_or x (pos (suc n))) ≡ true
unfolding positive_or
positive_or-pos x n = ground arith

positive_or_kept : (x d : ℤ) → is_pos x ≡ true → positive_or x d ≡ x
unfolding positive_or
positive_or_kept x d h = ground arith

timeout_or-ne-zero : (x : ℤ) (n : ℕ) → timeout_or x (pos (suc n)) ≢ pos 0
timeout_or-ne-zero (pos zero) n h = ground arith
timeout_or-ne-zero (pos (suc m)) n h = ground arith
timeout_or-ne-zero (negsuc m) n h = ground arith

timeout_or_kept : (x d : ℤ) → x ≢ pos 0 → timeout_or x d ≡ x
timeout_or_kept (pos zero) d h = absurd (h refl)
timeout_or_kept (pos (suc n)) d h = refl
timeout_or_kept (negsuc n) d h = refl

module _ {T : Type 0} where
  or_some-some : (t : Option T) (d : T) → (u : T) × (or_some t (some d) ≡ some u)
  or_some-some none d = (d, refl)
  or_some-some (some t) d = (t, refl)

  client_with_defaults-timeout :
      (t : Option T) (c : Option (HttpClient T)) → (client_with_defaults t c).timeout ≢ pos 0
  unfolding client_with_defaults
  client_with_defaults-timeout t none h = ground arith
  client_with_defaults-timeout t (some c) h = timeout_or-ne-zero c.timeout _ h

module _ {T O : Type 0} where
  -- Every field that the handler relies on is set.
  pub record IsComplete (o : Options T O) : Type 0 where
    pub transport : T
    pub has_transport : o.transport ≡ some transport
    pub client : HttpClient T
    pub has_client : o.client ≡ some client
    pub timeout : client.timeout ≢ pos 0
    pub requests_per_minute : is_pos o.rate_limit.requests_per_minute ≡ true
    pub burst : is_pos o.rate_limit.burst ≡ true
    pub idle_ttl : is_pos o.rate_limit.idle_ttl ≡ true
    pub max_ips : is_pos o.rate_limit.max_ips ≡ true
    pub manifest_bytes : is_pos o.manifest_cache.max_bytes ≡ true
    pub blob_bytes : is_pos o.blob_cache.max_bytes ≡ true

  -- Whatever the options, `withDefaults` gives options with a round tripper, a client whose
  -- timeout is not 0, and limits and budgets above 0.
  pub with_defaults-IsComplete : (t : T) (o : Options T O) → IsComplete (with_defaults t o)
  unfolding with_defaults default_options
  with_defaults-IsComplete t o =
      let (u, has) = or_some-some o.transport t in
      record {
        transport = u;
        has_transport = has;
        client = client_with_defaults (or_some o.transport (some t)) o.client;
        has_client = refl;
        timeout = client_with_defaults-timeout (or_some o.transport (some t)) o.client;
        requests_per_minute = positive_or-pos o.rate_limit.requests_per_minute _;
        burst = positive_or-pos o.rate_limit.burst _;
        idle_ttl = positive_or-pos o.rate_limit.idle_ttl _;
        max_ips = positive_or-pos o.rate_limit.max_ips _;
        manifest_bytes = positive_or-pos o.manifest_cache.max_bytes _;
        blob_bytes = positive_or-pos o.blob_cache.max_bytes _;
      }

  -- Options that already have all of these are left as they are by `withDefaults`.
  pub with_defaults_of_IsComplete : (t : T) (o : Options T O) → IsComplete o → with_defaults t o ≡ o
  unfolding with_defaults default_options client_with_defaults
  with_defaults_of_IsComplete t o h = ground (
    arith,
    positive_or_kept o.rate_limit.requests_per_minute (pos 240),
    positive_or_kept o.rate_limit.burst (pos 480),
    positive_or_kept o.rate_limit.idle_ttl (pos 600000000000),
    positive_or_kept o.rate_limit.max_ips (pos 10000),
    positive_or_kept o.manifest_cache.max_bytes (pos 268435456),
    positive_or_kept o.blob_cache.max_bytes (pos 536870912),
    timeout_or_kept h.client.timeout (pos 5000000000),
  )
