-- ===== src/ClientIp/Tests.antt =====
-- Runs of the address lookup, and its theorems at concrete requests.
use registry_redirect.Prelude.{◌≡◌, ◌≢◌, refl, none, some, [], ◌∷◌, Bytes-discrete, codes, arith}
use registry_redirect.ClientIp.{
  client_ip, index_byte, last_index_byte, has_byte, split_host_at, split_host, remote_ip,
  forwarded_ip,
}
use registry_redirect.ClientIp.Named.{client_ip-ne-nil}
use registry_redirect.GoMap.{lookup}
use registry_redirect.Header
use registry_redirect.Request.{Request}
use registry_redirect.Strings.{split, trim_space}

program : Unit {0}
unfolding lookup Bytes-discrete index_byte last_index_byte has_byte split_host_at split_host
    remote_ip forwarded_ip client_ip trim_space split Header.get
program = tt

hosts :
    (split_host (codes "10.0.0.1:80") ≡ some (codes "10.0.0.1"))
    × (split_host (codes "[::1]:80") ≡ some (codes "::1"))
    × (split_host (codes "::1") ≡ none)
    × (split_host (codes "[::1]") ≡ none)
    × (split_host (codes ":80") ≡ some [])
unfolding program
hosts = (refl, refl, refl, refl, refl)

abbrev request : Request
request = record {
  method = codes "GET";
  url = codes "/v2/";
  path = codes "/v2/";
  query = [];
  host = codes "registry.example";
  header = (codes "X-Forwarded-For", codes " 10.0.0.7 , 10.0.0.8" ∷ []) ∷ [];
  remote_addr = codes "[::1]:80";
}

forwarded : client_ip request ≡ codes "10.0.0.7"
unfolding program
forwarded = refl

-- A remote address with no host, which the server does not produce, has no name.
nameless : client_ip (record request { header = []; remote_addr = codes ":80" }) ≡ []
unfolding program
nameless = refl

remote_host : split_host request.remote_addr ≢ some []
unfolding program
remote_host h = ground arith

client_ip-ne-nil_example : client_ip request ≢ []
client_ip-ne-nil_example = client_ip-ne-nil request remote_host
