-- ===== src/Samples.antt =====
-- Parameters for the runs in the tests: a limiter library that lets all through, a store that keeps
-- nothing and one that keeps its last entry, and a registry that gives one answer.
use registry_redirect.Prelude.{
  ℕ, ◌+◌, ◌*◌, ◌^◌, Option, Bytes, Bytes-discrete, length, ltb, ite, if◌then◌else◌, arith, true,
  false, none, some, [], ◌∷◌, codes, inr,
}
use registry_redirect.BlobCache.{Dates, Entry, Store}
use registry_redirect.BlobCache.Fresh.{IsStore}
use registry_redirect.Http.{Reply, answered}
use registry_redirect.RateLimiter.Deps.{Deps}
use registry_redirect.Redirect.{World}

abbrev pub trivial : Deps
trivial = record {
  Limit = Unit;
  Limiter = Unit;
  Addr = Unit;
  Prefix = Unit;
  IpSet = Unit;
  per_minute = λ _. tt;
  new_limiter = λ _ _. tt;
  allow_n = λ _ _ _. (tt, true);
  parse_addr = λ _. none;
  unmap = λ _. tt;
  is_valid = λ _. true;
  masked = λ _. tt;
  build_set = λ _. some tt;
  has_no_range = λ _. false;
  set_contains = λ _ _. true;
}

abbrev pub no_store : Store
no_store = record { State = Unit; get = λ _ _ _. none; set_with_ttl = λ _ _ _ _ _ s. (s, false) }

abbrev pub answering : Reply → World
answering reply = record {
  client = λ _. answered reply;
  proxy_client = λ _. answered reply;
  url_error = λ _. none;
  url_text = λ url. url;
  method_error = λ _. [];
  status_text = λ _. [];
  decode_token = λ body. inr body;
  decode_list = λ body. inr (record { name = body.content; tags = codes "main" ∷ [] });
  encode_list = λ list. list.name;
}

-- A location is the parameter itself, and the time of a text is its length in minutes.
abbrev pub minutes : Dates
minutes = record {
  expiry_parameter = λ location. some location;
  parse_rfc3339 = λ _. none;
  parse_rfc3339_nano = λ value. some (60 * 10 ^ 9 * length value);
}

abbrev pub last : Store
last = record {
  State = Option (Bytes × Entry × ℕ);
  get = λ now key s. elim s [
    | none ↦ none
    | some (k, entry, t) ↦ ite (Bytes-discrete k key) (if ltb now t then some entry else none) none
  ];
  set_with_ttl = λ now key entry _ t s. (some (key, entry, now + t), true);
}

pub last-IsStore : IsStore last
last-IsStore = record { kept = λ now t size ttl key k entry e s found. ground arith }
