-- ===== src/Tokens/Flight.antt =====
-- `fetchAnonymousToken` of pkg/redirect/anonymous_token.go and the function that it has run.
use registry_redirect.Prelude.{
  ℕ, ◌*◌, Bool, true, false, ◌&&◌, Option, none, some, List, [], ◌∷◌, ◌++◌, Bytes, codes, ◌==◌, ◌⊎◌,
  inl, inr, if◌then◌else◌,
}
use registry_redirect.Header.{Header}
use registry_redirect.Http.{
  Read, read_failed, read_some, read_body_with_limit, Failure, Outgoing, Reply, Back, failed,
  answered,
}
use registry_redirect.Redirect.{World, new_backend_request, plain}
use registry_redirect.ResponseCache
use registry_redirect.ResponseCache.{Response, new_response}

abbrev pub max_body_bytes : ℕ
max_body_bytes = 64 * 1024

-- The result of a fetch: the answer, or the error.
pub data Fetched : Type 0 where
  fetched : Response → Fetched
  broken : Failure → Fetched

-- A context that is over before the fetch, or during it, or that lasts.
pub data Patience : Type 0 where
  gone : Failure → Patience
  leaves : Failure → Patience
  stays : Patience

pub record Course : Type 0 where
  pub now : ℕ
  pub later : ℕ
  pub patience : Patience
  pub joined : Option Fetched

abbrev pub fetch_header : Header
fetch_header =
    (codes "Accept", codes "application/json" ∷ [])
    ∷ (codes "Accept-Encoding", codes "identity" ∷ [])
    ∷ []

abbrev pub is_right : {A B : Type 0} → A ⊎ B → Bool
is_right (inl a) = false
is_right (inr b) = true

-- Whether an answer goes into the cache: a 200 whose body decodes.
unfoldable pub is_kept : World → Response → Bool
is_kept world e = e.status == 200 && is_right (world.decode_token e.body)

module _ (world : World) where
  -- The function of the flight from the answer's body on.
  unfoldable pub settle :
      ℕ → Bytes → Reply → Read → Option ResponseCache.Cache → Option ResponseCache.Cache × Fetched
  settle later url b (read_failed f) c = (c, broken f)
  settle later url b (read_some out true rest) c = elim rest.failure [
    | some f ↦ (c, broken f)
    | none ↦ (c, fetched (new_response b.status b.header (out ++ rest.content)))
  ]
  settle later url b (read_some out false rest) c =
      let e = new_response b.status b.header out in
      (if is_kept world e then (ResponseCache.set later url e c).0 else c, fetched e)

  unfoldable pub land :
      ℕ → Bytes → Back → Option ResponseCache.Cache → Option ResponseCache.Cache × Fetched
  land later url (failed f) c = (c, broken f)
  land later url (answered b) c = settle later url b (read_body_with_limit b.body max_body_bytes) c

  -- The cache, the result, and the requests that went out.
  pub record Flown : Type 0 where
    pub cache : Option ResponseCache.Cache
    pub result : Fetched
    pub asked : List Outgoing

  unfoldable pub send : ℕ → Bytes → Option ResponseCache.Cache → Bytes ⊎ Outgoing → Flown
  send later url c (inl text) = record { cache = c; result = broken (plain text); asked = [] }
  send later url c (inr out) = record {
    cache = (land later url (world.client out) c).0;
    result = (land later url (world.client out) c).1;
    asked = out ∷ [];
  }

  -- The function that `DoChan` runs.
  unfoldable pub flight : ℕ → ℕ → Bytes → Option ResponseCache.Cache → Flown
  flight now later url c = elim (ResponseCache.get now url c).1 [
    | some e ↦ record { cache = (ResponseCache.get now url c).0; result = fetched e; asked = [] }
    | none ↦
        send later url (ResponseCache.get now url c).0
          (new_backend_request world (codes "GET") url fetch_header)
  ]

  -- `DoChan`: a call joins a flight for its URL, or runs one.
  unfoldable pub fly : Course → Bytes → Option ResponseCache.Cache → Flown
  fly course url c = elim course.joined [
    | some result ↦ record { cache = c; result = result; asked = [] }
    | none ↦ flight course.now course.later url c
  ]

  abbrev pub waited : Patience → Flown → Flown
  waited (gone f) flown = record flown { result = broken f }
  waited (leaves f) flown = record flown { result = broken f }
  waited stays flown = flown

  abbrev pub is_gone : Patience → Option Failure
  is_gone (gone f) = some f
  is_gone (leaves f) = none
  is_gone stays = none

  unfoldable pub fetch_anonymous_token : Course → Bytes → Option ResponseCache.Cache → Flown
  fetch_anonymous_token course url c = elim (is_gone course.patience) [
    | some f ↦ record { cache = c; result = broken f; asked = [] }
    | none ↦ waited course.patience (fly course url c)
  ]
