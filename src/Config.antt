-- ===== src/Config.antt =====
-- The configuration of the overrides: pkg/redirect/rate_limit_config.go, with
-- `splitIPRateLimitConfigPaths`, `loadIPRateLimitOverrides` and `countIPRateLimitRanges` of main.go.
pub mod Sound
pub mod Loading
mod Tests
use registry_redirect.Prelude.{
  ℕ, ◌+◌, Bool, true, false, not, Option, none, some, List, [], ◌∷◌, ◌++◌, Bytes, codes, ℤ, is_pos,
  ◌⊎◌, inl, inr, if◌then◌else◌, length,
}
use registry_redirect.RateLimiter.Deps.{Deps}
use registry_redirect.RateLimiter.Limits.{Override}
use registry_redirect.Strings.{split, trim_space, contains}

-- `IPRateLimitConfig`, with the two numbers of its `rate_limit`.
pub record Config : Type 0 where
  pub requests_per_minute : ℤ
  pub burst : ℤ
  pub ip_ranges : List Bytes

-- The errors of `Override`: which number or range is wrong, with the text of the range's error.
pub data Invalid : Type 0 where
  bad_requests : Invalid
  bad_burst : Invalid
  no_ranges : Invalid
  bad_range : ℕ → Bytes → Invalid

-- The errors of a file: it does not open or decode, or what it holds is not valid.
pub data LoadError : Type 0 where
  unreadable : Bytes → Bytes → LoadError
  invalid : Bytes → Invalid → LoadError

-- `splitIPRateLimitConfigPaths`: the parts that are not blank, trimmed.
abbrev keep_path : Bytes → List Bytes → List Bytes
keep_path [] paths = paths
keep_path (b ∷ path) paths = (b ∷ path) ∷ paths

unfoldable pub keep_paths : List Bytes → List Bytes
keep_paths [] = []
keep_paths (part ∷ parts) = keep_path (trim_space part) (keep_paths parts)

unfoldable pub split_ip_rate_limit_config_paths : Bytes → List Bytes
split_ip_rate_limit_config_paths value = keep_paths (split b',' value)

module _ (deps : Deps) where
  open deps use {Addr, Prefix, unmap, masked}

  -- `netip.ParsePrefix` and `netip.ParseAddr` with their errors, `netip.PrefixFrom` with all bits of an
  -- address, and what opening a file and decoding it as one JSON value gives.
  pub record Reader : Type 0 where
    pub parse_prefix : Bytes → Bytes ⊎ Prefix
    pub parse_address : Bytes → Bytes ⊎ Addr
    pub full_prefix : Addr → Prefix
    pub read_config : Bytes → Bytes ⊎ Config

  module _ (reader : Reader) where
    open reader use {parse_prefix, parse_address, full_prefix, read_config}

    abbrev pub as_masked : Bytes ⊎ Prefix → Bytes ⊎ Prefix
    as_masked (inl text) = inl text
    as_masked (inr p) = inr (masked p)

    abbrev pub as_full : Bytes ⊎ Addr → Bytes ⊎ Prefix
    as_full (inl text) = inl text
    as_full (inr a) = inr (full_prefix (unmap a))

    abbrev pub parse_trimmed : Bytes → Bytes ⊎ Prefix
    parse_trimmed [] = inl (codes "empty IP address or CIDR range")
    parse_trimmed (b ∷ value) =
        if contains (b ∷ value) (codes "/")
        then as_masked (parse_prefix (b ∷ value))
        else as_full (parse_address (b ∷ value))

    unfoldable pub parse_ip_prefix : Bytes → Bytes ⊎ Prefix
    parse_ip_prefix value = parse_trimmed (trim_space value)

    -- The loop of `Override`, from the index of the range on.
    unfoldable pub parse_ranges : ℕ → List Bytes → Invalid ⊎ List Prefix
    parse_ranges i [] = inr []
    parse_ranges i (range ∷ ranges) =
        let rest = parse_ranges (i + 1) ranges in
        elim (parse_ip_prefix range) [
          | inl text ↦ inl (bad_range i text)
          | inr p ↦ elim rest [ inl e ↦ inl e | inr ps ↦ inr (p ∷ ps) ]
        ]

    abbrev pub is_empty : List Bytes → Bool
    is_empty [] = true
    is_empty (range ∷ ranges) = false

    unfoldable pub override : Config → Invalid ⊎ Override deps
    override c =
        if not (is_pos c.requests_per_minute)
        then inl bad_requests
        else if not (is_pos c.burst)
        then inl bad_burst
        else if is_empty c.ip_ranges
        then inl no_ranges
        else (elim (parse_ranges 0 c.ip_ranges) [
          | inl e ↦ inl e
          | inr ps ↦ inr (record {
            requests_per_minute = c.requests_per_minute;
            burst = c.burst;
            ip_prefixes = ps;
          })
        ])

    unfoldable pub load_file : Bytes → LoadError ⊎ List (Override deps)
    load_file path = elim (read_config path) [
      | inl text ↦ inl (unreadable path text)
      | inr c ↦ elim (override c) [ inl e ↦ inl (invalid path e) | inr o ↦ inr (o ∷ []) ]
    ]

    -- `loadIPRateLimitOverrides`, from the overrides of the files before.
    unfoldable pub load_from : List (Override deps) → List Bytes → LoadError ⊎ List (Override deps)
    load_from overrides [] = inr overrides
    load_from overrides (path ∷ paths) = elim (load_file path) [
      | inl e ↦ inl e
      | inr loaded ↦ load_from (overrides ++ loaded) paths
    ]

    unfoldable pub load : List Bytes → LoadError ⊎ List (Override deps)
    load paths = load_from [] paths

  unfoldable pub count_ranges : ℕ → List (Override deps) → ℕ
  count_ranges count [] = count
  count_ranges count (o ∷ overrides) = count_ranges (count + length o.ip_prefixes) overrides
