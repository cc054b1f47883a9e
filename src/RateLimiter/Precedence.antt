-- ===== src/RateLimiter/Precedence.antt =====
-- Which rate an address gets when several overrides have it.
use registry_redirect.Prelude.{
  ◌≡◌, refl, sym, ap, subst, ◌∙◌, ◌⊎◌, true, false, Option-cases, none, some, List, [], ◌∷◌, ◌++◌,
  Bytes, arith, All, inl, inr, Bool-cases,
}
use registry_redirect.RateLimiter.Deps.{Deps}
use registry_redirect.RateLimiter.Limits.{RateLimit, Compiled, first_match, or_default}
use registry_redirect.RateLimiter.State.{IpRateLimiter, rate_limit_for_ip}

module _ (deps : Deps) where
  open deps use {Addr, parse_addr, unmap, set_contains}

  -- The rate of an address: that of the first override with the address, and the default rate for an
  -- address that no override has or that does not parse.
  pub rate_limit_for_ip_lem :
      (l : IpRateLimiter deps) (ip : Bytes)
      → ((parse_addr ip ≡ none → rate_limit_for_ip deps l ip ≡ l.rate_limit)
          × ((addr : Addr)
              → parse_addr ip ≡ some addr
              → rate_limit_for_ip deps l ip
                ≡ or_default deps (first_match deps (unmap addr) l.overrides) l.rate_limit))
  unfolding rate_limit_for_ip first_match
  rate_limit_for_ip_lem l ip = (λ h. ground arith, λ addr h. ground arith)

  -- The override that decides: it has the address, and none before it does.
  pub record IsFirst (addr : Addr) (r : RateLimit deps) (l : List (Compiled deps)) : Type 0 where
    pub before : List (Compiled deps)
    pub chosen : Compiled deps
    pub after : List (Compiled deps)
    pub split : l ≡ before ++ (chosen ∷ after)
    pub earlier : All (λ o. set_contains o.ip_set addr ≡ false) before
    pub has : set_contains chosen.ip_set addr ≡ true
    pub rate : chosen.rate_limit ≡ r

  -- A rate that the loop over the overrides finds for an address is that of an override that has
  -- the address, and no override before that one has it.
  pub first_match-IsFirst :
      (addr : Addr) (r : RateLimit deps) (l : List (Compiled deps))
      → first_match deps addr l ≡ some r
      → IsFirst addr r l
  unfolding first_match
  first_match-IsFirst addr r [] h = absurd (ground arith)
  first_match-IsFirst addr r (o ∷ l) h = elim (Bool-cases (set_contains o.ip_set addr)) [
    | inl here ↦ record {
      before = [];
      chosen = o;
      after = l;
      split = refl;
      earlier = tt;
      has = here;
      rate = ground arith;
    }
    | inr there ↦
        let f = first_match-IsFirst addr r l (ground arith) in
        record {
          before = o ∷ f.before;
          chosen = f.chosen;
          after = f.after;
          split = ap (◌∷◌ o) f.split;
          earlier = (there, f.earlier);
          has = f.has;
          rate = f.rate;
        }
  ]

  first_match-none :
      (addr : Addr) (l : List (Compiled deps))
      → first_match deps addr l ≡ none
      → All (λ o. set_contains o.ip_set addr ≡ false) l
  unfolding first_match
  first_match-none addr [] h = tt
  first_match-none addr (o ∷ l) h = elim (Bool-cases (set_contains o.ip_set addr)) [
    | inl here ↦ absurd (ground arith)
    | inr there ↦ (there, first_match-none addr l (ground arith))
  ]

  -- The rate of an address that parses: without the IPv6 form of an IPv4 address, that of the first override
  -- whose ranges have it, and the default rate where none has it. The default rate also for an address that
  -- does not parse.
  pub rate_limit_for_ip-IsFirst :
      (l : IpRateLimiter deps) (ip : Bytes)
      → (parse_addr ip ≡ none → rate_limit_for_ip deps l ip ≡ l.rate_limit)
        × ((addr : Addr)
            → parse_addr ip ≡ some addr
            → IsFirst (unmap addr) (rate_limit_for_ip deps l ip) l.overrides
              ⊎ (All (λ o. set_contains o.ip_set (unmap addr) ≡ false) l.overrides
                  × (rate_limit_for_ip deps l ip ≡ l.rate_limit)))
  rate_limit_for_ip-IsFirst l ip =
      let (unparsed, parsed) = rate_limit_for_ip_lem l ip in
      (
        unparsed,
        λ addr is_addr. elim (Option-cases (first_match deps (unmap addr) l.overrides)) [
          | inl no_override ↦ inr (
            first_match-none (unmap addr) l.overrides no_override,
            parsed addr is_addr ∙ ap (λ o. or_default deps o l.rate_limit) no_override,
          )
          | inr (r, found) ↦
              let rate : rate_limit_for_ip deps l ip ≡ r =
                parsed addr is_addr ∙ ap (λ o. or_default deps o l.rate_limit) found in
              inl (
                subst (λ x. IsFirst (unmap addr) x l.overrides) (sym rate)
                  (first_match-IsFirst (unmap addr) r l.overrides found))
        ],
      )
