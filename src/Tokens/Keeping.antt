-- ===== src/Tokens/Keeping.antt =====
-- What gets into the token cache: nothing but answers with the status 200 whose token decodes.
use registry_redirect.Prelude.{
  ℕ, ◌≡◌, refl, true, false, Option, some, Bytes, arith, ◌⊎◌, inl, inr, Bool-cases, Option-cases,
  ◌≤◌,
}
use registry_redirect.BlobCache.{Store}
use registry_redirect.Http.{
  Read, read_failed, read_some, read_body_with_limit, Outgoing, Reply, Back, failed, answered,
}
use registry_redirect.RateLimiter.Deps.{Deps}
use registry_redirect.RateLimiter.State.{allow_request}
use registry_redirect.Redirect.{World, Redirect, Result, new_backend_request}
use registry_redirect.Request.{Request}
use registry_redirect.ResponseCache
use registry_redirect.ResponseCache.{Response, new_response}
use registry_redirect.Strings.{split}
use registry_redirect.Tokens.{
  max_body_bytes, Patience, gone, leaves, stays, Course, is_kept, settle, land, Flown, send, flight,
  fly, waited, is_gone, fetch_anonymous_token, look_or_fetch, get_token, serve_fetched,
  serve_anonymous_token, relay_request, token, is_anonymous, token_url, token_values, repo_parts,
}
use registry_redirect.Tokens.Cached.{is_kept-IsToken, IsGood, get-IsGood, set-IsGood, IsGood-later}

module _ (world : World) where
  settle-IsGood :
      (later : ℕ) (url : Bytes) (b : Reply) (r : Read) (c : Option ResponseCache.Cache)
      → IsGood world later c
      → IsGood world later (settle world later url b r c).0
  unfolding settle
  settle-IsGood later url b (read_failed f) c h = h
  settle-IsGood later url b (read_some out true rest) c h = elim (Option-cases rest.failure) [
    | inl whole ↦ rw (whole, settle) h
    | inr (f, cut) ↦ rw (cut, settle) h
  ]
  settle-IsGood later url b (read_some out false rest) c h =
      elim (Bool-cases (is_kept world (new_response b.status b.header out))) [
        | inl kept ↦
            rw (kept, settle) (set-IsGood world later url _ c h (is_kept-IsToken world _ kept))
        | inr other ↦ rw (other, settle) h
      ]

  pub land-IsGood :
      (later : ℕ) (url : Bytes) (back : Back) (c : Option ResponseCache.Cache)
      → IsGood world later c
      → IsGood world later (land world later url back c).0
  unfolding land
  land-IsGood later url (failed f) c h = h
  land-IsGood later url (answered b) c h =
      settle-IsGood later url b (read_body_with_limit b.body max_body_bytes) c h

  send-IsGood :
      (later : ℕ) (url : Bytes) (c : Option ResponseCache.Cache) (made : Bytes ⊎ Outgoing)
      → IsGood world later c
      → IsGood world later (send world later url c made).cache
  unfolding send
  send-IsGood later url c (inl text) h = h
  send-IsGood later url c (inr out) h = land-IsGood later url (world.client out) c h

  flight-IsGood :
      (now later : ℕ) (url : Bytes) (c : Option ResponseCache.Cache)
      → now ≤ later
      → IsGood world now c
      → IsGood world later (flight world now later url c).cache
  unfolding flight
  flight-IsGood now later url c le h =
      let looked = IsGood-later world now later _ le (get-IsGood world now url c h) in
      elim (Option-cases (ResponseCache.get now url c).1) [
        | inr (e, hit) ↦ rw (hit, flight) looked
        | inl miss ↦ rw (miss, flight) (send-IsGood later url _ _ looked)
      ]

  pub waited-cache :
      (p : Patience) (flown : Flown world) → (waited world p flown).cache ≡ flown.cache
  waited-cache (gone f) flown = refl
  waited-cache (leaves f) flown = refl
  waited-cache stays flown = refl

  fly-IsGood :
      (course : Course) (url : Bytes) (c : Option ResponseCache.Cache)
      → course.now ≤ course.later
      → IsGood world course.now c
      → IsGood world course.later (fly world course url c).cache
  unfolding fly
  fly-IsGood course url c le h = elim (Option-cases course.joined) [
    | inr (result, other) ↦ rw (other, fly) (IsGood-later world course.now course.later c le h)
    | inl own ↦ rw (own, fly) (flight-IsGood course.now course.later url c le h)
  ]

  fetch_anonymous_token-IsGood :
      (course : Course) (url : Bytes) (c : Option ResponseCache.Cache)
      → course.now ≤ course.later
      → IsGood world course.now c
      → IsGood world course.later (fetch_anonymous_token world course url c).cache
  unfolding fetch_anonymous_token
  fetch_anonymous_token-IsGood course url c le h =
      elim (Option-cases (is_gone world course.patience)) [
        | inr (f, over) ↦
            rw (over, fetch_anonymous_token) (IsGood-later world course.now course.later c le h)
        | inl lasts ↦ rw (lasts, fetch_anonymous_token, waited-cache) (fly-IsGood course url c le h)
      ]

module _ (deps : Deps) (store : Store) (world : World) where
  pub look_or_fetch-IsGood :
      (course : Course) (url : Bytes) (c : Option ResponseCache.Cache)
      → course.now ≤ course.later
      → IsGood world course.now c
      → IsGood world course.later (look_or_fetch deps store world course url c).cache
  unfolding look_or_fetch
  look_or_fetch-IsGood course url c le h =
      let looked = get-IsGood world course.now url c h in
      elim (Option-cases (ResponseCache.get course.now url c).1) [
        | inr (e, hit) ↦
            rw (hit, look_or_fetch) (IsGood-later world course.now course.later _ le looked)
        | inl miss ↦
            rw (miss, look_or_fetch) (fetch_anonymous_token-IsGood world course url _ le looked)
      ]

  serve_fetched-IsGood :
      (course : Course) (r : Request) (url : Bytes) (s : Redirect deps store)
      (res : Result deps store)
      → course.now ≤ course.later
      → IsGood world course.now s.token_cache
      → serve_fetched deps store world course r url s ≡ some res
      → IsGood world course.later res.server.token_cache
  unfolding serve_fetched
  serve_fetched-IsGood course r url s res le h e =
      elim (Option-cases (allow_request deps course.now r s.rate_limiter)) [
        | inl stuck ↦ absurd (ground arith)
        | inr ((l, false), refused) ↦
            let g = IsGood-later world course.now course.later _ le h in
            let same : res.server.token_cache ≡ s.token_cache = ground arith in rw same g
        | inr ((l, true), allowed) ↦
            let g = fetch_anonymous_token-IsGood world course url s.token_cache le h in
            let same : res.server.token_cache
                ≡ (fetch_anonymous_token world course url s.token_cache).cache =
              ground arith in
            rw same g
      ]

  serve_anonymous_token-IsGood :
      (course : Course) (r : Request) (url : Bytes) (s : Redirect deps store)
      (res : Result deps store)
      → course.now ≤ course.later
      → IsGood world course.now s.token_cache
      → serve_anonymous_token deps store world course r url s ≡ some res
      → IsGood world course.later res.server.token_cache
  unfolding serve_anonymous_token
  serve_anonymous_token-IsGood course r url s res le h e =
      let looked = get-IsGood world course.now url s.token_cache h in
      elim (Option-cases (ResponseCache.get course.now url s.token_cache).1) [
        | inr (a, hit) ↦
            let g = IsGood-later world course.now course.later _ le looked in
            let same : res.server.token_cache ≡ (ResponseCache.get course.now url s.token_cache).0 =
              ground arith in
            rw same g
        | inl miss ↦
            let past : serve_fetched deps store world course r url
                  (record s { token_cache = (ResponseCache.get course.now url s.token_cache).0 })
                ≡ some res =
              ground arith in
            serve_fetched-IsGood course r url _ res le looked past
      ]

  relay_request-cache :
      (course : Course) (r : Request) (s : Redirect deps store) (made : Bytes ⊎ Outgoing)
      (res : Result deps store)
      → relay_request deps store world course r s made ≡ some res
      → res.server.token_cache ≡ s.token_cache
  unfolding relay_request
  relay_request-cache course r s (inl text) res h = ground arith
  relay_request-cache course r s (inr out) res h =
      elim (Option-cases (allow_request deps course.now r s.rate_limiter)) [
        | inl stuck ↦ absurd (ground arith)
        | inr ((l, false), refused) ↦ ground arith
        | inr ((l, true), allowed) ↦ ground arith
      ]

  -- If everything that can be read from the token cache is an answer with the status 200 whose token
  -- decodes, then that is so after every request for /token, and after every fetch that `getToken` makes.
  pub token-IsGood :
      (course : Course) (r : Request) (s : Redirect deps store)
      → course.now ≤ course.later
      → IsGood world course.now s.token_cache
      → (((res : Result deps store)
            → token deps store world course r s ≡ some res
            → IsGood world course.later res.server.token_cache)
          × IsGood world course.later (get_token deps store world course r s).0.token_cache)
  unfolding token get_token
  token-IsGood course r s le h = (handled, got)
    where
      handled :
          (res : Result deps store)
          → token deps store world course r s ≡ some res
          → IsGood world course.later res.server.token_cache
      handled res e = elim (Bool-cases (is_anonymous r)) [
        | inl anonymous ↦
            serve_anonymous_token-IsGood course r
              (token_url s.host (token_values s.prefix s.repo r.query)) s res le h (ground arith)
        | inr own ↦
            let same : res.server.token_cache ≡ s.token_cache =
              relay_request-cache course r s
                (new_backend_request world r.method
                  (token_url s.host (token_values s.prefix s.repo r.query)) r.header)
                res (ground arith) in
            rw same (IsGood-later world course.now course.later s.token_cache le h)
      ]

      got : IsGood world course.later (get_token deps store world course r s).0.token_cache
      got = elim (Option-cases (repo_parts s.prefix (split b'/' r.path))) [
        | inl bad ↦
            rw (bad, get_token) (IsGood-later world course.now course.later s.token_cache le h)
        | inr (parts, good) ↦
            rw (good, get_token) (look_or_fetch-IsGood course _ s.token_cache le h)
      ]
