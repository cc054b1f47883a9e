-- ===== src/Config/Tests.antt =====
-- Runs of the configuration over texts as addresses and prefixes, and its theorems there.
use registry_redirect.Prelude.{
  ◌≡◌, refl, true, false, some, [], ◌∷◌, Bytes, Bytes-discrete, codes, pos, inl, inr, length, ite,
  ◌⊎◌, List,
}
use registry_redirect.Config.{
  Config, bad_range, LoadError, invalid, Reader, keep_paths, split_ip_rate_limit_config_paths,
  parse_ip_prefix, parse_ranges, override, load_file, load_from, load, count_ranges,
}
use registry_redirect.Config.Sound.{IsLawful}
use registry_redirect.Config.Loading.{IsFirstError, compile_overrides-load, load-IsFirstError}
use registry_redirect.RateLimiter.Deps.{Deps}
use registry_redirect.RateLimiter.Limits.{Override, compile_overrides}
use registry_redirect.Strings.{split, trim_space, contains, after_prefix, has_prefix}

abbrev texts : Deps
texts = record {
  Limit = Unit;
  Limiter = Unit;
  Addr = Bytes;
  Prefix = Bytes;
  IpSet = List Bytes;
  per_minute = λ _. tt;
  new_limiter = λ _ _. tt;
  allow_n = λ _ _ _. (tt, true);
  parse_addr = λ a. some a;
  unmap = λ a. a;
  is_valid = λ _. true;
  masked = λ p. p;
  build_set = λ ps. some ps;
  has_no_range = λ _. false;
  set_contains = λ _ _. false;
}

abbrev good : Config
good = record {
  requests_per_minute = pos 60;
  burst = pos 5;
  ip_ranges = codes "10.0.0.0/8" ∷ codes " 10.1.0.1" ∷ [];
}

abbrev bad : Config
bad = record good { ip_ranges = codes "10.0.0.0/8" ∷ codes " " ∷ [] }

-- The file `a` is good, `b` has a blank range, and there are no others.
abbrev files : Bytes → Bytes ⊎ Config
files p =
    ite (Bytes-discrete p (codes "a")) (inr good)
      (ite (Bytes-discrete p (codes "b")) (inr bad) (inl (codes "no such file")))

abbrev reader : Reader texts
reader = record {
  parse_prefix = λ v. inr v;
  parse_address = λ v. inr v;
  full_prefix = λ a. a;
  read_config = files;
}

program : Unit {0}
unfolding Bytes-discrete keep_paths split_ip_rate_limit_config_paths parse_ip_prefix parse_ranges
    override load_file load_from load count_ranges split trim_space contains after_prefix has_prefix
program = tt

paths_test : split_ip_rate_limit_config_paths (codes " a, ,b,") ≡ codes "a" ∷ codes "b" ∷ []
unfolding program
paths_test = refl

abbrev loaded : Override texts
loaded = record {
  requests_per_minute = pos 60;
  burst = pos 5;
  ip_prefixes = codes "10.0.0.0/8" ∷ codes "10.1.0.1" ∷ [];
}

loads : load texts reader (codes "a" ∷ codes "a" ∷ []) ≡ inr (loaded ∷ loaded ∷ [])
unfolding program
loads = refl

ranges : count_ranges texts 0 (loaded ∷ loaded ∷ []) ≡ 4
unfolding program
ranges = refl

abbrev blank : LoadError
blank = invalid (codes "b") (bad_range 1 (codes "empty IP address or CIDR range"))

fails : load texts reader (codes "a" ∷ codes "b" ∷ codes "c" ∷ []) ≡ inl blank
unfolding program
fails = refl

laws : IsLawful texts reader
laws = record {
  parsed = λ v p h. refl;
  full = λ v a h. refl;
  mask = λ p h. refl;
  built = λ p ps h. (p ∷ ps, refl, refl);
}

compile_overrides-load_example : length (compile_overrides texts (loaded ∷ loaded ∷ [])) ≡ 2
compile_overrides-load_example =
    compile_overrides-load texts reader laws (codes "a" ∷ codes "a" ∷ []) (loaded ∷ loaded ∷ [])
      loads

load-IsFirstError_example : IsFirstError texts reader (codes "a" ∷ codes "b" ∷ codes "c" ∷ []) blank
load-IsFirstError_example =
    load-IsFirstError texts reader (codes "a" ∷ codes "b" ∷ codes "c" ∷ []) blank fails
