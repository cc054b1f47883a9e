-- ===== src/Status/Tests.antt =====
-- A handler that sets a header, sends two statuses and a body, and its counts.
use registry_redirect.Prelude.{◌≡◌, refl, some, List, [], ◌∷◌, codes, arith}
use registry_redirect.Decimal.{itoa}
use registry_redirect.Http.{Writer, new_writer}
use registry_redirect.Paths.{metric_path}
use registry_redirect.Request.{Request}
use registry_redirect.Status.{
  Call, sets, writes_header, writes, Metrics, serve_http, run, wrap, write_header, send_header,
}
use registry_redirect.Status.Counting.{run_plain, status_got, serve_http_counts}

abbrev handler : Request → List Call
handler r =
    sets (codes "Allow") (codes "GET")
    ∷ writes_header 405
    ∷ writes_header 200
    ∷ writes (codes "no")
    ∷ []

abbrev client : Request
client = record {
  method = codes "PUT";
  url = codes "/token";
  path = codes "/token";
  query = [];
  host = codes "a.example";
  header = [];
  remote_addr = codes "10.0.0.1:80";
}

abbrev counts : Metrics
counts = record { requests = []; responses = [] }

serve_http_counts_example :
    (got : Writer) × (run_plain (handler client) new_writer ≡ some got)
    × (serve_http handler new_writer client counts
        ≡ some (
          record {
            requests = (codes "PUT", metric_path (codes "/token")) ∷ [];
            responses = (codes "PUT", metric_path (codes "/token"), itoa (status_got got)) ∷ [];
          },
          got,
        ))
serve_http_counts_example =
    serve_http_counts handler new_writer client counts refl
      (tt, ((omega arith, omega arith), ((omega arith, omega arith), (tt, tt))))

-- A status 103 goes ahead of the reply, and the wrapper takes it for the reply's: the 404 is lost.
informed :
    run (writes_header 103 ∷ writes_header 404 ∷ []) (wrap new_writer)
    ≡ some (record { response_writer = new_writer; status = 103 })
unfolding run write_header send_header
informed = refl

informed_plain :
    run_plain (writes_header 103 ∷ writes_header 404 ∷ []) new_writer
    ≡ some (record new_writer { sent = some (404, []) })
unfolding run_plain send_header
informed_plain = refl
