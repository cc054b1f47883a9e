-- ===== src/Flights/Tests.antt =====
-- A group that is a list of keys, two callers that share a fetch, and the theorems there.
use registry_redirect.Prelude.{
  ℕ, ◌≡◌, refl, ◌||◌, Bool, true, false, Option, none, some, List, [], ◌∷◌, Bytes, Bytes-discrete,
  codes, arith, if◌then◌else◌,
}
use registry_redirect.Flights.{
  Group, IsGroup, System, join, give, request, look, answer, leave, start,
}
use registry_redirect.Flights.Served.{is_waiting, has_result, Reached-has_result}
use registry_redirect.Flights.Shared.{IsShared, Reached, begin, joins, leaves, Reached-IsShared}
use registry_redirect.GoMap.{lookup, insert, erase}
use registry_redirect.Header.{is_method}
use registry_redirect.Http.{Reply, read_body_with_limit, answered}
use registry_redirect.Paths.{bytes_eq}
use registry_redirect.Redirect.{World, new_backend_request}
use registry_redirect.ResponseCache
use registry_redirect.Samples.{answering}
use registry_redirect.Tokens.{fetched, broken, land, settle, is_kept}
use registry_redirect.Tokens.Cached.{IsGood}

abbrev holds : Bytes → List Bytes → Bool
holds k [] = false
holds k (j ∷ ks) = bytes_eq k j || holds k ks

abbrev drop : Bytes → List Bytes → List Bytes
drop k [] = []
drop k (j ∷ ks) = if bytes_eq j k then drop k ks else j ∷ drop k ks

abbrev keys : Group
keys = record {
  State = List Bytes;
  new = [];
  in_flight = holds;
  do_chan = λ k ks. if holds k ks then (ks, false) else (k ∷ ks, true);
  returned = drop;
}

holds-drop :
    (q k : Bytes) (ks : List Bytes)
    → holds q (drop k ks) ≡ (if bytes_eq q k then false else holds q ks)
holds-drop q k [] = ground arith
holds-drop q k (j ∷ ks) = ground (arith, holds-drop q k ks)

keys-IsGroup : IsGroup keys
keys-IsGroup = record {
  idle = λ k. refl;
  leads = λ k ks. ground arith;
  begun = λ q k ks. ground arith;
  ended = holds-drop;
}

program : Unit {0}
unfolding Bytes-discrete lookup insert erase is_method read_body_with_limit new_backend_request join
    give request look answer leave land settle is_kept ResponseCache.get ResponseCache.set
    ResponseCache.has ResponseCache.store ResponseCache.new_response
program = tt

abbrev reply : Reply
reply = record { status = 200; header = []; body = record { content = codes "t"; failure = none } }

abbrev world : World
world = answering reply

abbrev cache : Option ResponseCache.Cache
cache = some (record { ttl = 60; max = 1; entries = [] })

abbrev url : Bytes
url = codes "u"

-- Two callers share a fetch, of which the first leaves.
abbrev shared : System keys
shared =
    leave world keys 1
      (record { text = []; canceled = true; deadline_exceeded = false; timeout = false })
      (join world keys 2 url (join world keys 1 url (start world keys cache)))

results :
    (answer world keys 3 url (answered reply) (look world keys 3 url shared)).results
    ≡ (2, fetched (record { status = 200; header = []; body = codes "t" }))
      ∷ (
        1,
        broken (record { text = []; canceled = true; deadline_exceeded = false; timeout = false }),
      )
      ∷ []
unfolding program
results = refl

cache-IsGood : (t : ℕ) → IsGood world t cache
unfolding lookup
cache-IsGood t = record {
  bounded = record { is_map = tt; capped = omega arith };
  good = λ t' key e later found. absurd (ground arith);
}

shared-Reached : Reached world keys keys-IsGroup cache 3 shared
shared-Reached =
    leaves 3 1 (record { text = []; canceled = true; deadline_exceeded = false; timeout = false })
      (join world keys 2 url (join world keys 1 url (start world keys cache)))
      (joins 3 2 url (join world keys 1 url (start world keys cache))
        (joins 3 1 url (start world keys cache) (begin 3)))

Reached-IsShared_example : IsShared world keys keys-IsGroup 3 shared
Reached-IsShared_example =
    Reached-IsShared world keys keys-IsGroup cache 3 shared cache-IsGood shared-Reached

waits_still : is_waiting 2 url shared.waiting ≡ true
unfolding program
waits_still = refl

Reached-has_result_example :
    has_result 2 (answer world keys 4 url (answered reply) (look world keys 3 url shared)).results
    ≡ true
Reached-has_result_example =
    Reached-has_result world keys keys-IsGroup cache 3 4 2 url (answered reply) shared cache-IsGood
      shared-Reached waits_still
