-- ===== src/Proxy/Granting.antt =====
-- `getToken` for `proxy`: what it leaves, and that it does not panic on the path of a route.
use registry_redirect.Prelude.{
  ℕ, zero, suc, ◌+◌, ◌-◌, ◌≤◌, ◌≡◌, ◌≢◌, refl, Option, some, List, [], ◌∷◌, Bytes, arith, inl, inr,
  Option-cases, length, take,
}
use registry_redirect.BlobCache.{Dates, Store}
use registry_redirect.BlobCache.Fresh.{HoldsFresh}
use registry_redirect.Http.{Outgoing}
use registry_redirect.Proxy.Ending.{IsHeld}
use registry_redirect.RateLimiter.Deps.{Deps}
use registry_redirect.Redirect.{World, Redirect}
use registry_redirect.Request.{Request}
use registry_redirect.ResponseCache
use registry_redirect.Strings.{split}
use registry_redirect.Tokens.{
  Course, Flown, Fetched, Token, panics, token_of, token_url, pull_values, repo_parts,
  look_or_fetch, get_token, fetched, broken,
}
use registry_redirect.Tokens.Charging.{IsFetch, fetch_anonymous_token-IsFetch}
use registry_redirect.Tokens.Cached.{IsGood}
use registry_redirect.Tokens.Keeping.{look_or_fetch-IsGood}

take-cons : (n : ℕ) (c : Bytes) (l : List Bytes) → 1 ≤ n → take n (c ∷ l) ≡ c ∷ take (n - 1) l
take-cons zero c l h = absurd (ground arith)
take-cons (suc n) c l h = ground arith

module _ (deps : Deps) (store : Store) (world : World) (dates : Dates) where
  -- The caches hold what they should.
  pub record IsSound (now : ℕ) (s : Redirect deps store) : Type 0 where
    pub manifests : IsHeld s.manifest_cache
    pub tokens : IsGood world now s.token_cache
    pub blobs : HoldsFresh store dates s.blob_cache

  look_or_fetch-IsFetch :
      (course : Course) (url : Bytes) (c : Option ResponseCache.Cache)
      → IsFetch url (look_or_fetch deps store world course url c).asked
  unfolding look_or_fetch
  look_or_fetch-IsFetch course url c = elim (Option-cases (ResponseCache.get course.now url c).1) [
    | inr (e, hit) ↦ rw (hit, look_or_fetch) (inl refl)
    | inl miss ↦ rw (miss, look_or_fetch) (fetch_anonymous_token-IsFetch world course url _)
  ]

  -- What `getToken` leaves on a path that a route leads to.
  pub record IsGot (course : Course) (s s' : Redirect deps store) (t : Token)
      (asked : List Outgoing) : Type 0 where
    pub limiter : s'.rate_limiter ≡ s.rate_limiter
    pub sound : IsSound course.later s'
    pub defined : t ≢ panics
    pub url : Bytes
    pub fetch : IsFetch url asked

  token_of-ne-panics : (f : Fetched) → token_of world f ≢ panics
  unfolding token_of
  token_of-ne-panics (broken f) h = ground arith
  token_of-ne-panics (fetched e) h = ground arith

  repo_parts-some :
      (prefix : Bytes) (parts : List Bytes)
      → 5 ≤ length parts
      → (named : List Bytes) × (repo_parts prefix parts ≡ some named)
  unfolding repo_parts
  repo_parts-some prefix [] h = absurd (ground arith)
  repo_parts-some prefix (a ∷ []) h = absurd (ground arith)
  repo_parts-some prefix (a ∷ b ∷ []) h = absurd (ground arith)
  repo_parts-some prefix (a ∷ b ∷ c ∷ parts) h =
      elim (Option-cases (repo_parts prefix (a ∷ b ∷ c ∷ parts))) [
        | inr found ↦ found
        | inl missing ↦ absurd (ground (arith, take-cons (length parts + 3 - 4) c parts))
      ]

  pub get_token-IsGot :
      (course : Course) (r : Request) (s : Redirect deps store)
      → course.now ≤ course.later
      → 5 ≤ length (split b'/' r.path)
      → IsSound course.now s
      → (s' : Redirect deps store) × (t : Token) × (asked : List Outgoing) × (get_token deps store
            world course r s
          ≡ (s', t, asked))
        × IsGot course s s' t asked
  unfolding get_token
  get_token-IsGot course r s le long h =
      let (parts, good) = repo_parts-some s.prefix (split b'/' r.path) long in
      let url = token_url s.host (pull_values s.host s.repo parts) in
      let flown : Flown world = look_or_fetch deps store world course url s.token_cache in
      (
        record s { token_cache = flown.cache },
        token_of world flown.result,
        flown.asked,
        rw (good, get_token) refl,
        record {
          limiter = refl;
          sound = record {
            manifests = h.manifests;
            tokens = look_or_fetch-IsGood deps store world course url s.token_cache le h.tokens;
            blobs = h.blobs;
          };
          defined = token_of-ne-panics flown.result;
          url = url;
          fetch = look_or_fetch-IsFetch course url s.token_cache;
        },
      )
