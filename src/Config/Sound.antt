-- ===== src/Config/Sound.antt =====
-- An override that a configuration gives is one that the limiter takes.
use registry_redirect.Prelude.{
  ℕ, suc, ◌+◌, ◌≡◌, refl, ap, subst, true, false, some, List, [], ◌∷◌, All, Bytes, codes, arith,
  is_pos, ◌⊎◌, inl, inr, length, Bool-cases,
}
use registry_redirect.Config.{
  Config, Reader, as_masked, as_full, parse_trimmed, is_empty, parse_ip_prefix, parse_ranges,
  override,
}
use registry_redirect.RateLimiter.Deps.{Deps}
use registry_redirect.RateLimiter.Limits.{
  Override, Compiled, all_valid, new_ip_set, compile_one, compile_overrides,
}
use registry_redirect.Strings.{trim_space, contains}

pub sum_cases : {A B : Type 0} (s : A ⊎ B) → ((a : A) × (s ≡ inl a)) ⊎ ((b : B) × (s ≡ inr b))
sum_cases (inl a) = inl (a, refl)
sum_cases (inr b) = inr (b, refl)

module _ (deps : Deps) (reader : Reader deps) where
  open deps use {Addr, Prefix, IpSet, unmap, is_valid, masked, build_set, has_no_range}
  open reader use {parse_prefix, parse_address, full_prefix}

  -- Every prefix of a list is valid.
  abbrev pub AllValid : List Prefix → Type 0
  AllValid = All (λ p. is_valid p ≡ true)

  -- What the code relies on of net/netip and go4.org/netipx.
  pub record IsLawful : Type 0 where
    pub parsed : (v : Bytes) (p : Prefix) → parse_prefix v ≡ inr p → is_valid p ≡ true
    pub full :
        (v : Bytes) (a : Addr) → parse_address v ≡ inr a → is_valid (full_prefix (unmap a)) ≡ true
    pub mask : (p : Prefix) → is_valid p ≡ true → is_valid (masked p) ≡ true
    pub built :
        (p : Prefix) (ps : List Prefix)
        → AllValid (p ∷ ps)
        → (s : IpSet) × (build_set (p ∷ ps) ≡ some s) × (has_no_range s ≡ false)

  module _ (laws : IsLawful) where
    as_masked-valid :
        (v : Bytes) (p : Prefix)
        → as_masked deps reader (parse_prefix v) ≡ inr p
        → is_valid p ≡ true
    as_masked-valid v p h = elim (sum_cases (parse_prefix v)) [
      | inl (t, bad) ↦ absurd (ground arith)
      | inr (q, good) ↦ let m = laws.mask q (laws.parsed v q good) in ground arith
    ]

    as_full-valid :
        (v : Bytes) (p : Prefix) → as_full deps reader (parse_address v) ≡ inr p → is_valid p ≡ true
    as_full-valid v p h = elim (sum_cases (parse_address v)) [
      | inl (t, bad) ↦ absurd (ground arith)
      | inr (a, good) ↦ let m = laws.full v a good in ground arith
    ]

    parse_trimmed-valid :
        (v : Bytes) (p : Prefix) → parse_trimmed deps reader v ≡ inr p → is_valid p ≡ true
    parse_trimmed-valid [] p h = absurd (ground arith)
    parse_trimmed-valid (b ∷ v) p h = elim (Bool-cases (contains (b ∷ v) (codes "/"))) [
      | inl slash ↦ as_masked-valid (b ∷ v) p (rw slash at h)
      | inr plain ↦ as_full-valid (b ∷ v) p (rw plain at h)
    ]

    parse_ip_prefix-valid :
        (v : Bytes) (p : Prefix) → parse_ip_prefix deps reader v ≡ inr p → is_valid p ≡ true
    unfolding parse_ip_prefix
    parse_ip_prefix-valid v p h = parse_trimmed-valid (trim_space v) p h

    parse_ranges-AllValid :
        (i : ℕ) (ranges : List Bytes) (ps : List Prefix)
        → parse_ranges deps reader i ranges ≡ inr ps
        → AllValid ps × (length ps ≡ length ranges)
    unfolding parse_ranges
    parse_ranges-AllValid i [] [] h = (tt, refl)
    parse_ranges-AllValid i [] (p ∷ ps) h = absurd (ground arith)
    parse_ranges-AllValid i (range ∷ ranges) ps h =
        elim (sum_cases (parse_ip_prefix deps reader range)) [
          | inl (t, bad) ↦ absurd (ground arith)
          | inr (p, good) ↦ elim (sum_cases (parse_ranges deps reader (i + 1) ranges)) [
            | inl (e, bad) ↦ absurd (ground arith)
            | inr (qs, rest) ↦
                let (valid, len) = parse_ranges-AllValid (i + 1) ranges qs rest in
                let own = parse_ip_prefix-valid range p good in
                let same : p ∷ qs ≡ ps = ground arith in rw (← same) ((own, valid), ap suc len)
          ]
        ]

    -- An override that the limiter will not skip.
    pub record IsSound (o : Override deps) : Type 0 where
      requests : is_pos o.requests_per_minute ≡ true
      burst : is_pos o.burst ≡ true
      first : Prefix
      others : List Prefix
      prefixes : o.ip_prefixes ≡ first ∷ others
      valid : AllValid (first ∷ others)

    cons_of_length :
        (ranges : List Bytes) (ps : List Prefix)
        → is_empty deps reader ranges ≡ false
        → length ps ≡ length ranges
        → (p : Prefix) × (qs : List Prefix) × (ps ≡ p ∷ qs)
    cons_of_length [] ps h k = absurd (ground arith)
    cons_of_length (range ∷ ranges) [] h k = absurd (ground arith)
    cons_of_length (range ∷ ranges) (p ∷ qs) h k = (p, qs, refl)

    made : Config → List Prefix → Override deps
    made c ps = record {
      requests_per_minute = c.requests_per_minute;
      burst = c.burst;
      ip_prefixes = ps;
    }

    made-IsSound :
        (c : Config) (ps : List Prefix)
        → is_pos c.requests_per_minute ≡ true
        → is_pos c.burst ≡ true
        → is_empty deps reader c.ip_ranges ≡ false
        → parse_ranges deps reader 0 c.ip_ranges ≡ inr ps
        → IsSound (made c ps)
    unfolding made
    made-IsSound c ps requests burst some_range parsed =
        let (valid, len) = parse_ranges-AllValid 0 c.ip_ranges ps parsed in
        let (p, qs, shape) = cons_of_length c.ip_ranges ps some_range len in
        record {
          requests = requests;
          burst = burst;
          first = p;
          others = qs;
          prefixes = shape;
          valid = rw shape at valid;
        }

    pub override-IsSound :
        (c : Config) (o : Override deps) → override deps reader c ≡ inr o → IsSound o
    unfolding override made
    override-IsSound c o h = elim (Bool-cases (is_pos c.requests_per_minute)) [
      | inr bad ↦ absurd (ground arith)
      | inl requests ↦ elim (Bool-cases (is_pos c.burst)) [
        | inr bad ↦ absurd (ground arith)
        | inl burst ↦ elim (Bool-cases (is_empty deps reader c.ip_ranges)) [
          | inl nothing ↦ absurd (ground arith)
          | inr some_range ↦ elim (sum_cases (parse_ranges deps reader 0 c.ip_ranges)) [
            | inl (e, bad) ↦ absurd (ground arith)
            | inr (ps, parsed) ↦
                let same : made c ps ≡ o = ground arith in
                subst IsSound same (made-IsSound c ps requests burst some_range parsed)
          ]
        ]
      ]
    ]

    all_valid_same :
        (ps : List Prefix)
        → AllValid ps
        → AllValid (all_valid deps ps) × (length (all_valid deps ps) ≡ length ps)
    unfolding all_valid
    all_valid_same [] h = (tt, refl)
    all_valid_same (p ∷ ps) (v, h) =
        let (valid, len) = all_valid_same ps h in
        rw (v, all_valid) ((laws.mask p v, valid), ap suc len)

    new_ip_set-some :
        (p : Prefix) (ps : List Prefix)
        → AllValid (p ∷ ps)
        → (s : IpSet) × (new_ip_set deps (p ∷ ps) ≡ some s)
    unfolding new_ip_set all_valid
    new_ip_set-some p ps (v, h) =
        let (valid, len) = all_valid_same ps h in
        let (s, made_set, ranges) =
          laws.built (masked p) (all_valid deps ps) (laws.mask p v, valid) in
        (s, rw (v, new_ip_set, all_valid, made_set, ranges) refl)

    compile_one-some :
        (o : Override deps) → IsSound o → (k : Compiled deps) × (compile_one deps o ≡ some k)
    unfolding compile_one
    compile_one-some o h =
        let (s, built) = new_ip_set-some h.first h.others h.valid in
        let k : Compiled deps = record {
          rate_limit = record { limit = deps.per_minute o.requests_per_minute; burst = o.burst };
          ip_set = s;
        } in
        (k, rw (h.requests, h.burst, h.prefixes, compile_one, built) refl)

    pub length-compile_overrides :
        (l : List (Override deps)) → All IsSound l → length (compile_overrides deps l) ≡ length l
    unfolding compile_overrides
    length-compile_overrides [] h = refl
    length-compile_overrides (o ∷ l) (sound, h) =
        let (k, kept) = compile_one-some o sound in
        rw (kept, compile_overrides) (ap suc (length-compile_overrides l h))
