-- ===== src/RateLimiter/Tests.antt =====
-- Runs of the rate limiter over buckets that hold a number of tokens and are never filled up, and its
-- theorems at concrete limiters.
use registry_redirect.Prelude.{
  ℕ, ◌-◌, ◌≡◌, ◌≢◌, ◌⊎◌, All, refl, Bool, true, false, ◌||◌, not, none, some, List, [], ◌∷◌, Bytes,
  Bytes-discrete, codes, arith, leb, ite, ℤ, pos, pos_part,
}
use registry_redirect.ClientIp.{
  client_ip, index_byte, last_index_byte, has_byte, split_host_at, split_host, remote_ip,
  forwarded_ip,
}
use registry_redirect.GoMap.{lookup, insert, erase, sweep}
use registry_redirect.Header
use registry_redirect.Paths.{bytes_eq, nth, path_parts, is_blob_parts, is_blob_request, blobs_up}
use registry_redirect.Request.{Request}
use registry_redirect.Strings.{split, trim_slashes, trim_space}
use registry_redirect.Tracker.{record_ip}
use registry_redirect.RateLimiter.Bounds.{IsValid}
use registry_redirect.RateLimiter.Clients.{Client, oldest_from, remove_oldest, evict}
use registry_redirect.RateLimiter.Deps.{Deps}
use registry_redirect.RateLimiter.Limits.{
  Override, all_valid, new_ip_set, compile_one, compile_overrides, first_match,
}
use registry_redirect.RateLimiter.Oldest.{IsEvicted, evict-IsEvicted, evict_stuck}
use registry_redirect.RateLimiter.Precedence.{IsFirst, rate_limit_for_ip-IsFirst}
use registry_redirect.RateLimiter.History.{start, request, Reached-answers}
use registry_redirect.RateLimiter.Requests.{IsOutcome, allow_request_lem, client_keeps}
use registry_redirect.RateLimiter.State.{
  IpRateLimiter, LimiterOptions, new_ip_rate_limiter, rate_limit_for_ip, remove_idle, trim_idle,
  sweep_full, make_room, client_for, client, charge, allow, allow_request,
}

abbrev member : List Bytes → Bytes → Bool
member [] a = false
member (b ∷ l) a = bytes_eq a b || member l a

-- Addresses are texts, prefixes are addresses, and every text but the empty one is an address.
abbrev tokens : Deps
tokens = record {
  Limit = ℤ;
  Limiter = ℕ;
  Addr = Bytes;
  Prefix = Bytes;
  IpSet = List Bytes;
  per_minute = λ n. n;
  new_limiter = λ _ burst. pos_part burst;
  allow_n = λ _ n held. (held - n, leb n held);
  parse_addr = λ a. ite (Bytes-discrete a []) none (some a);
  unmap = λ a. a;
  is_valid = λ p. not (bytes_eq p []);
  masked = λ p. p;
  build_set = λ ps. some ps;
  has_no_range = λ _. false;
  set_contains = member;
}

program : Unit {0}
unfolding lookup insert erase sweep Bytes-discrete nth path_parts is_blob_parts is_blob_request
    blobs_up split trim_slashes record_ip index_byte last_index_byte has_byte split_host_at
    split_host remote_ip forwarded_ip client_ip trim_space Header.get oldest_from remove_oldest
    evict all_valid new_ip_set compile_one compile_overrides first_match new_ip_rate_limiter
    rate_limit_for_ip remove_idle trim_idle sweep_full make_room client_for client charge allow
    allow_request
program = tt

abbrev a : Bytes
a = codes "10.0.0.1"

abbrev b : Bytes
b = codes "10.0.0.2"

abbrev wide : Override tokens
wide = record { requests_per_minute = pos 60; burst = pos 1; ip_prefixes = a ∷ [] }

abbrev skipped : Override tokens
skipped = record { requests_per_minute = pos 60; burst = pos 0; ip_prefixes = b ∷ [] }

abbrev options : LimiterOptions tokens
options = record {
  requests_per_minute = pos 240;
  burst = pos 2;
  idle_ttl = 100;
  max_ips = pos 1;
  ip_overrides = skipped ∷ wide ∷ [];
  limited_ips = none;
}

abbrev empty : IpRateLimiter tokens
empty = record {
  rate_limit = record { limit = pos 240; burst = pos 2 };
  idle_ttl = 100;
  max_ips = 1;
  overrides =
      record { rate_limit = record { limit = pos 60; burst = pos 1 }; ip_set = a ∷ [] } ∷ [];
  limited_ips = none;
  clients = [];
  last_trim = none;
}

empty_lem : new_ip_rate_limiter tokens options ≡ empty
unfolding program
empty_lem = refl

-- One client, which an override gives a single token.
abbrev one : IpRateLimiter tokens
one = record empty { clients = (a, record { limiter = 0; last_seen = 5 }) ∷ []; last_trim = some 5 }

first_allowed : allow tokens a 5 empty ≡ some (one, true)
unfolding program
first_allowed = refl

second_refused :
    allow tokens a 9 one
    ≡ some (record one { clients = (a, record { limiter = 0; last_seen = 9 }) ∷ [] }, false)
unfolding program
second_refused = refl

-- A second client takes the only place.
other_client :
    allow tokens b 9 one
    ≡ some (record one { clients = (b, record { limiter = 1; last_seen = 9 }) ∷ [] }, true)
unfolding program
other_client = refl

abbrev index : Request
index = record {
  method = codes "GET";
  url = codes "/v2/";
  path = codes "/v2/";
  query = [];
  host = codes "registry.example";
  header = (codes "Fly-Client-Ip", a ∷ []) ∷ [];
  remote_addr = codes "[::1]:80";
}

request_ip : client_ip index ≡ a
unfolding program
request_ip = refl

a_named : a ≢ []
a_named h = cc

named : client_ip index ≢ []
named = rw request_ip a_named

one-IsValid : IsValid tokens one
unfolding program
one-IsValid = record {
  positive = omega arith;
  bounded = record { is_map = (refl, tt); named = (λ h. cc, tt); capped = omega arith };
}

not_blob : is_blob_request index.path ≡ false
unfolding program
not_blob = refl

evict-IsEvicted_example :
    (m : List (Bytes × Client ℕ)) × (evict 1 1 one.clients ≡ some m) × IsEvicted 1 one.clients m
evict-IsEvicted_example =
    evict-IsEvicted 1 1 one.clients (omega arith) (omega arith) one-IsValid.bounded.is_map
      one-IsValid.bounded.named

evict_stuck_example : evict {L = ℕ} 1 7 (([], record { limiter = 3; last_seen = 0 }) ∷ []) ≡ none
evict_stuck_example = evict_stuck {L = ℕ} 7 (record { limiter = 3; last_seen = 0 })

rate_limit_for_ip-IsFirst_example :
    (tokens.parse_addr a ≡ none → rate_limit_for_ip tokens one a ≡ one.rate_limit)
    × ((addr : tokens.Addr)
        → tokens.parse_addr a ≡ some addr
        → IsFirst tokens (tokens.unmap addr) (rate_limit_for_ip tokens one a) one.overrides
          ⊎ (All (λ o. tokens.set_contains o.ip_set (tokens.unmap addr) ≡ false) one.overrides
              × (rate_limit_for_ip tokens one a ≡ one.rate_limit)))
rate_limit_for_ip-IsFirst_example = rate_limit_for_ip-IsFirst tokens one a

allow_request_lem_example :
    (l' : IpRateLimiter tokens) × (allowed : Bool) × (allow_request tokens 9 index (some one)
      ≡ some (some l', allowed))
    × IsOutcome tokens (client_ip index) one l' allowed
allow_request_lem_example = allow_request_lem tokens 9 index one one-IsValid named not_blob

client_keeps_example :
    (l' : IpRateLimiter tokens) × (client tokens a 9 one ≡ some (l', 0))
    × (lookup Bytes-discrete a l'.clients ≡ some (record { limiter = 0; last_seen = 9 }))
unfolding program
client_keeps_example =
    client_keeps tokens a 9 (record { limiter = 0; last_seen = 5 }) one one-IsValid refl
      (omega arith)

index_allowed :
    allow_request tokens 5 index (some (new_ip_rate_limiter tokens options)) ≡ some (some one, true)
unfolding program
index_allowed = refl

Reached-answers_example :
    IsValid tokens one
    × ((l' : IpRateLimiter tokens) × (allowed : Bool) × (allow_request tokens 9 index (some one)
          ≡ some (some l', allowed)))
Reached-answers_example =
    Reached-answers tokens options one 9 index refl
      (request (new_ip_rate_limiter tokens options) one 5 index true start named index_allowed)
      named
