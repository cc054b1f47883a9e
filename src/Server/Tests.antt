-- ===== src/Server/Tests.antt =====
-- Servers that start, with and without a configuration, and their theorems there.
use registry_redirect.Prelude.{
  ℕ, ◌*◌, ◌≡◌, refl, inl, inr, true, false, Bool, Option, none, some, List, [], ◌∷◌, Bytes-discrete,
  codes, pos,
}
use registry_redirect.BlobCache
use registry_redirect.ClientIp.{
  client_ip, index_byte, last_index_byte, has_byte, split_host_at, split_host, remote_ip,
  forwarded_ip,
}
use registry_redirect.Config.{
  LoadError, Reader, load, load_from, load_file, keep_paths, unreadable,
  split_ip_rate_limit_config_paths,
}
use registry_redirect.GoMap.{lookup, insert}
use registry_redirect.Header
use registry_redirect.Http.{Reply, new_writer, write_header, write, error}
use registry_redirect.Options.{Options, default_options, with_defaults, positive_or, second}
use registry_redirect.RateLimiter.Limits.{Override}
use registry_redirect.RateLimiter.State.{new_ip_rate_limiter}
use registry_redirect.Redirect.{Redirect}
use registry_redirect.Request.{Request}
use registry_redirect.Samples.{trivial, no_store, last}
use registry_redirect.Server.{
  with_blobs, options_of, redirect_options, new_redirect, new_with_options, serve,
  rate_limited_ips_handler,
}
use registry_redirect.Server.Configuring.{IsConfigured, serve_limits}
use registry_redirect.Strings.{split, trim_space}
use registry_redirect.Tokens.{Course, stays}
use registry_redirect.Tracker

program : Unit {0}
unfolding lookup insert Bytes-discrete Header.set Header.del write_header write error serve
    redirect_options options_of new_with_options new_redirect with_defaults default_options
    positive_or BlobCache.get rate_limited_ips_handler split trim_space
    split_ip_rate_limit_config_paths keep_paths load load_from load_file index_byte last_index_byte
    has_byte split_host_at split_host remote_ip forwarded_ip client_ip Header.get Header.values
program = tt

abbrev new_store : ℕ → ℕ → Option no_store.State
new_store counters max_cost = some tt

abbrev reader : Reader trivial
reader = record {
  parse_prefix = λ _. inr tt;
  parse_address = λ _. inr tt;
  full_prefix = λ _. tt;
  read_config = λ _. inl (codes "no such file");
}

abbrev missing : LoadError → Bool
missing e = true

-- The registry answers with a redirect to a link that is good for four minutes.
abbrev page : Reply
page = record {
  status = 307;
  header = (codes "Location", codes "abcd" ∷ []) ∷ [];
  body = record { content = []; failure = none };
}

abbrev started : Redirect trivial no_store
started =
    with_blobs trivial no_store (codes "ghcr.io") (codes "dagger") []
      (with_defaults tt (record (default_options tt) {
        rate_limit = record ((default_options tt).rate_limit) {
          limited_ips = some (Tracker.init (pos 50));
        };
      }))
      (some tt)

serves :
    serve trivial no_store new_store reader missing tt false
      (codes "config.json")
      false
      (codes "dagger")
      []
    ≡ inr (some started)
unfolding program
serves = refl

-- With the flag of the paths, the same error is fatal.
fails :
    serve trivial no_store new_store reader missing tt true
      (codes "config.json")
      false
      (codes "dagger")
      []
    ≡ inl (unreadable (codes "config.json") (codes "no such file"))
unfolding program
fails = refl

serve_limits_example :
    (overrides : List (Override trivial)) × IsConfigured trivial reader missing false
      (split_ip_rate_limit_config_paths (codes "config.json"))
      overrides
    × (started.rate_limiter
        ≡ some (
            new_ip_rate_limiter trivial (record {
              requests_per_minute = pos 240;
              burst = pos 480;
              idle_ttl = 600 * second;
              max_ips = pos 10000;
              ip_overrides = overrides;
              limited_ips = some (Tracker.init (pos 50));
            })))
serve_limits_example =
    serve_limits trivial no_store new_store reader missing tt false (codes "config.json") false
      (codes "dagger") [] started serves

abbrev new_last : ℕ → ℕ → Option last.State
new_last counters max_cost = some none

abbrev options : Options Unit (Override trivial)
options = default_options tt

abbrev first : Redirect trivial last
first =
    with_blobs trivial last (codes "ghcr.io") (codes "dagger") [] (with_defaults tt options)
      (some none)

made :
    new_with_options trivial last new_last tt (codes "ghcr.io") (codes "dagger") [] options
    ≡ some first
unfolding program
made = refl

-- A client that has an authorization asks for a blob.
abbrev client : Request
client = record {
  method = codes "GET";
  url = codes "/v2/engine/blobs/b";
  path = codes "/v2/engine/blobs/b";
  query = [];
  host = codes "a.example";
  header = (codes "Authorization", codes "Bearer t" ∷ []) ∷ [];
  remote_addr = codes "10.0.0.1:80";
}

abbrev course : Course
course = record { now = 5; later = 7; patience = stays; joined = none }

abbrev put : Request
put = record {
  method = codes "PUT";
  url = codes "/rate-limited-ips";
  path = codes "/rate-limited-ips";
  query = [];
  host = codes "localhost";
  header = [];
  remote_addr = codes "10.0.0.1:80";
}

not_allowed :
    (rate_limited_ips_handler (λ _. []) none put new_writer).body ≡ codes "method not allowed\n"
unfolding program
not_allowed = refl
