-- ===== src/Proxy/Sending.antt =====
-- `proxy` past the limiter: the requests for a token and for the page, and what they leave.
use registry_redirect.Prelude.{
  ℕ, ◌≤◌, ◌≡◌, refl, sym, ap, subst, ◌∙◌, true, false, some, List, [], ◌∷◌, ◌++◌, Bytes,
  Bytes-discrete, codes, arith, ◌⊎◌, inl, inr, Bool-cases, length,
}
use registry_redirect.BlobCache.{Dates, Store}
use registry_redirect.BlobCache.Fresh.{IsStore}
use registry_redirect.Decimal.{itoa}
use registry_redirect.GoMap.{lookup-insert_self}
use registry_redirect.Header
use registry_redirect.Header.{Header}
use registry_redirect.Http.{new_writer, error, backend_error_status, Outgoing}
use registry_redirect.Proxy.{opened, forward, with_token, authorize}
use registry_redirect.Proxy.Ending.{finish-IsKept}
use registry_redirect.RateLimiter.Deps.{Deps}
use registry_redirect.Redirect.{World, Redirect, Result}
use registry_redirect.Request.{Request}
use registry_redirect.Strings.{split}
use registry_redirect.Tokens.{
  Course, is_nil, Token, token_is, status_is, fails_with, panics, token_url,
}
use registry_redirect.Tokens.Charging.{IsFetch}
use registry_redirect.Tokens.Cached.{IsGood, IsGood-later}
use registry_redirect.V2.Replay.{back_cases}
use registry_redirect.Proxy.Granting.{IsSound, IsGot, get_token-IsGot}

get-set_self : (h : Header) (k v : Bytes) → Header.get (Header.set h k v) k ≡ v
unfolding Header.get Header.set Header.values
get-set_self h k v =
    rw (lookup-insert_self Bytes-discrete (Header.canonical k) (v ∷ []) h, Header.values) refl

-- A request to the registry for a page.
pub record IsForwarded (r : Request) (url : Bytes) (out : Outgoing) : Type 0 where
  pub method : out.method ≡ r.method
  pub target : out.url ≡ url
  pub authorized : is_nil (Header.get out.header (codes "Authorization")) ≡ false
  pub own : is_nil (Header.get r.header (codes "Authorization")) ≡ false → out.header ≡ r.header

-- The requests that go out for one: at most one for a token, none where the client has its own
-- authorization, and then at most one for the page.
pub record IsSent (r : Request) (url : Bytes) (asked : List Outgoing) : Type 0 where
  pub tokens : List Outgoing
  pub token_url : Bytes
  pub fetch : IsFetch token_url tokens
  pub own : is_nil (Header.get r.header (codes "Authorization")) ≡ false → tokens ≡ []
  pub page :
      (asked ≡ tokens) ⊎ ((out : Outgoing) × IsForwarded r url out × (asked ≡ tokens ++ out ∷ []))

module _ (deps : Deps) (store : Store) (world : World) (dates : Dates) (law : IsStore store) where
  -- What the end of a request leaves and sends, from the state on in which its client was let through.
  pub record IsDone (course : Course) (r : Request) (url : Bytes) (s : Redirect deps store)
      (res : Result deps store) : Type 0 where
    pub limiter : res.server.rate_limiter ≡ s.rate_limiter
    pub sound : IsSound deps store world dates course.later res.server
    pub sent : IsSent r url res.asked

  forward-IsDone :
      (course : Course) (later : ℕ) (r : Request) (url token_url : Bytes) (out : Outgoing)
      (tokens : List Outgoing) (s : Redirect deps store)
      → IsSound deps store world dates course.later s
      → 5 ≤ length (split b'/' r.path)
      → IsFetch token_url tokens
      → (is_nil (Header.get r.header (codes "Authorization")) ≡ false → tokens ≡ [])
      → IsForwarded r url out
      → (res : Result deps store) × (forward deps store world dates later r url out tokens s
          ≡ some res)
        × IsDone course r url s res
  unfolding forward
  forward-IsDone course later r url token_url out tokens s h long fetch own sends =
      let header = Header.set [] (codes "X-Redirected") (world.url_text out.url) in
      let sent : IsSent r url (tokens ++ out ∷ []) = record {
        tokens = tokens;
        token_url = token_url;
        fetch = fetch;
        own = own;
        page = inr (out, sends, refl);
      } in
      elim (back_cases (world.proxy_client out)) [
        | inl (f, bad) ↦ (
          record {
            server = s;
            writer = error f.text (backend_error_status f) (record new_writer { header = header });
            asked = tokens ++ out ∷ [];
          },
          rw (bad, forward) refl,
          record { limiter = refl; sound = h; sent = sent },
        )
        | inr (b, good) ↦
            let (s', w', done, kept) =
              finish-IsKept deps store world dates law later r url b
                (opened deps store world dates s r header b.header) s h.manifests h.blobs
                (omega (arith, long)) in
            (
              record { server = s'; writer = w'; asked = tokens ++ out ∷ [] },
              rw (good, forward, done) refl,
              record {
                limiter = kept.limiter;
                sound = record {
                  manifests = kept.manifests;
                  tokens = subst (IsGood world course.later) (sym kept.tokens) h.tokens;
                  blobs = kept.blobs;
                };
                sent = sent;
              },
            )
      ]

  with_token-IsDone :
      (course : Course) (later : ℕ) (r : Request) (url : Bytes) (out : Outgoing)
      (s s' : Redirect deps store) (t : Token) (tokens : List Outgoing)
      → 5 ≤ length (split b'/' r.path)
      → out ≡ record { method = r.method; url = url; header = r.header }
      → is_nil (Header.get r.header (codes "Authorization")) ≡ true
      → IsGot deps store world dates course s s' t tokens
      → (res : Result deps store) × (with_token deps store world dates later r url out
            (s', t, tokens)
          ≡ some res)
        × IsDone course r url s res
  unfolding with_token
  with_token-IsDone course later r url out s s' (token_is t) tokens long made bare got =
      let header = Header.set out.header (codes "Authorization") (codes "Bearer " ++ t) in
      let authorized = get-set_self out.header (codes "Authorization") (codes "Bearer " ++ t) in
      let (res, done, d) =
        forward-IsDone course later r url got.url (record out { header = header }) tokens s'
          got.sound long got.fetch (λ other. absurd (ground arith))
          (record {
            method = ap (λ (o : Outgoing). o.method) made;
            target = ap (λ (o : Outgoing). o.url) made;
            authorized = ap is_nil authorized;
            own = λ other. absurd (ground arith);
          }) in
      (res, done, record { limiter = d.limiter ∙ got.limiter; sound = d.sound; sent = d.sent })
  with_token-IsDone course later r url out s s' (status_is code) tokens long made bare got = (
    record {
      server = s';
      writer = error (itoa code ++ b' ' ∷ world.status_text code) code new_writer;
      asked = tokens;
    },
    refl,
    record {
      limiter = got.limiter;
      sound = got.sound;
      sent = record {
        tokens = tokens;
        token_url = got.url;
        fetch = got.fetch;
        own = λ other. absurd (ground arith);
        page = inl refl;
      };
    },
  )
  with_token-IsDone course later r url out s s' (fails_with f) tokens long made bare got = (
    record {
      server = s';
      writer = error f.text (backend_error_status f) new_writer;
      asked = tokens;
    },
    refl,
    record {
      limiter = got.limiter;
      sound = got.sound;
      sent = record {
        tokens = tokens;
        token_url = got.url;
        fetch = got.fetch;
        own = λ other. absurd (ground arith);
        page = inl refl;
      };
    },
  )
  with_token-IsDone course later r url out s s' panics tokens long made bare got =
      absurd (got.defined refl)

  pub authorize-IsDone :
      (course : Course) (later : ℕ) (r : Request) (url : Bytes) (out : Outgoing)
      (s : Redirect deps store)
      → course.now ≤ course.later
      → 5 ≤ length (split b'/' r.path)
      → out ≡ record { method = r.method; url = url; header = r.header }
      → IsSound deps store world dates course.now s
      → (res : Result deps store) × (authorize deps store world dates course later r url out s
          ≡ some res)
        × IsDone course r url s res
  unfolding authorize
  authorize-IsDone course later r url out s le long made h =
      let headers = ap (λ (o : Outgoing). o.header) made in
      elim (Bool-cases (is_nil (Header.get out.header (codes "Authorization")))) [
        | inl bare ↦
            let (s', t, tokens, got, g) =
              get_token-IsGot deps store world dates course r s le long h in
            let (res, done, d) =
              with_token-IsDone course later r url out s s' t tokens long made (rw headers at bare)
                g in
            (res, rw (bare, authorize, got) done, d)
        | inr own ↦
            let later_sound : IsSound deps store world dates course.later s = record {
              manifests = h.manifests;
              tokens = IsGood-later world course.now course.later s.token_cache le h.tokens;
              blobs = h.blobs;
            } in
            let (res, done, d) =
              forward-IsDone course later r url [] out [] s later_sound long (inl refl) (λ _. refl)
                (record {
                  method = ap (λ (o : Outgoing). o.method) made;
                  target = ap (λ (o : Outgoing). o.url) made;
                  authorized = own;
                  own = λ _. headers;
                }) in
            (res, rw (own, authorize) done, d)
      ]
