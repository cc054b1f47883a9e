-- ===== src/Tokens/Charging.antt =====
-- Which requests for tokens go to the registry, and who is charged.
use registry_redirect.Prelude.{
  ℕ, ◌≡◌, refl, true, Option, some, List, [], ◌∷◌, Bytes, codes, arith, ◌⊎◌, inl, inr, Bool-cases,
  Option-cases, if◌then◌else◌,
}
use registry_redirect.BlobCache.{Store}
use registry_redirect.Header.{Header, is_method}
use registry_redirect.Http.{Outgoing}
use registry_redirect.RateLimiter.Deps.{Deps}
use registry_redirect.RateLimiter.State.{allow_request}
use registry_redirect.Redirect.{World, Redirect, Result, new_backend_request}
use registry_redirect.Request.{Request}
use registry_redirect.ResponseCache
use registry_redirect.ResponseCache.{Response}
use registry_redirect.Tokens.{
  Patience, gone, leaves, stays, Course, Flown, send, flight, fly, fetch_header, is_gone, waited,
  fetch_anonymous_token, is_anonymous, token_url, token_values,
}

-- The request of every fetch for a URL, whoever asks.
abbrev pub fetch_request : Bytes → Outgoing
fetch_request url = record { method = codes "GET"; url = url; header = fetch_header }

pub new_backend_request-inr :
    (world : World) (method url : Bytes) (header : Header) (out : Outgoing)
    → new_backend_request world method url header ≡ inr out
    → out ≡ record { method = method; url = url; header = header }
unfolding new_backend_request
new_backend_request-inr world method url header out h = elim (Bool-cases (is_method method)) [
  | inr bad ↦ absurd (ground arith)
  | inl good ↦ elim (Option-cases (world.url_error url)) [
    | inr (text, bad) ↦ absurd (ground arith)
    | inl fine ↦ ground arith
  ]
]

-- Nothing, or the one request of a fetch.
abbrev pub IsFetch : Bytes → List Outgoing → Type 0
IsFetch url asked = (asked ≡ []) ⊎ (asked ≡ fetch_request url ∷ [])

module _ (world : World) where
  send-IsFetch :
      (later : ℕ) (url : Bytes) (c : Option ResponseCache.Cache) (made : Bytes ⊎ Outgoing)
      → new_backend_request world (codes "GET") url fetch_header ≡ made
      → IsFetch url (send world later url c made).asked
  unfolding send
  send-IsFetch later url c (inl text) h = inl refl
  send-IsFetch later url c (inr out) h =
      inr (ground (arith, new_backend_request-inr world (codes "GET") url fetch_header out h))

  flight-IsFetch :
      (now later : ℕ) (url : Bytes) (c : Option ResponseCache.Cache)
      → IsFetch url (flight world now later url c).asked
  unfolding flight
  flight-IsFetch now later url c = elim (Option-cases (ResponseCache.get now url c).1) [
    | inr (e, hit) ↦ rw (hit, flight) (inl refl)
    | inl miss ↦ rw (miss, flight) (send-IsFetch later url _ _ refl)
  ]

  waited-asked : (p : Patience) (flown : Flown world) → (waited world p flown).asked ≡ flown.asked
  waited-asked (gone f) flown = refl
  waited-asked (leaves f) flown = refl
  waited-asked stays flown = refl

  pub fetch_anonymous_token-IsFetch :
      (course : Course) (url : Bytes) (c : Option ResponseCache.Cache)
      → IsFetch url (fetch_anonymous_token world course url c).asked
  unfolding fetch_anonymous_token fly
  fetch_anonymous_token-IsFetch course url c = elim (Option-cases (is_gone world course.patience)) [
    | inr (f, over) ↦ rw (over, fetch_anonymous_token) (inl refl)
    | inl lasts ↦ elim (Option-cases course.joined) [
      | inr (result, other) ↦ rw (lasts, fetch_anonymous_token, waited-asked, fly, other) (inl refl)
      | inl own ↦
          rw (lasts, fetch_anonymous_token, waited-asked, fly, own)
            (flight-IsFetch course.now course.later url c)
    ]
  ]

module _ (deps : Deps) (store : Store) where
  -- The request that may go out for a request for /token.
  abbrev pub token_request : Request → Redirect deps store → Outgoing
  token_request r s =
      let url = token_url s.host (token_values s.prefix s.repo r.query) in
      record {
        method = r.method;
        url = url;
        header = if is_anonymous r then fetch_header else r.header;
      }

  -- Nothing went out, or one request did, after the limiter had let its client through.
  abbrev pub IsCharged : ℕ → Request → Redirect deps store → Outgoing → Result deps store → Type 0
  IsCharged now r s out res =
      (res.asked ≡ [])
      ⊎ ((res.asked ≡ out ∷ [])
          × (allow_request deps now r s.rate_limiter ≡ some (res.server.rate_limiter, true)))
