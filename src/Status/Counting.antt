-- ===== src/Status/Counting.antt =====
-- What is counted is what the client gets.
use registry_redirect.Prelude.{
  ℕ, ◌≡◌, ◌≢◌, ◌≤◌, refl, ◌⊎◌, inl, inr, false, not, ◌&&◌, ◌||◌, Option, none, some, List, [], ◌∷◌,
  arith, ltb, ◌==◌, All,
}
use registry_redirect.Decimal.{itoa}
use registry_redirect.Header.{Header}
use registry_redirect.Http
use registry_redirect.Http.{Writer}
use registry_redirect.Paths.{metric_path}
use registry_redirect.Request.{Request}
use registry_redirect.Status.{
  StatusResponseWriter, wrap, send_header, write_header, write, status_code, Call, sets,
  writes_header, writes, set_header, call, run, Metrics, serve_http,
}

-- The calls on the writer itself.
abbrev pub call_plain : Call → Writer → Option Writer
call_plain (sets k v) w = some (set_header k v w)
call_plain (writes_header code) w = send_header code w
call_plain (writes b) w = some (Http.write b w)

unfoldable pub run_plain : List Call → Writer → Option Writer
run_plain [] w = some w
run_plain (c ∷ calls) w = elim (call_plain c w) [ none ↦ none | some w' ↦ run_plain calls w' ]

-- The status that the client gets: the one that was sent, and else 200 when the handler returns.
abbrev pub status_got : Writer → ℕ
status_got w = elim w.sent [ none ↦ 200 | some sent ↦ sent.0 ]

-- A status that is written is that of a reply, and not an informational one.
abbrev pub IsCall : Call → Type 0
IsCall (sets k v) = Unit
IsCall (writes_header code) = (200 ≤ code) × (code ≤ 999)
IsCall (writes b) = Unit

-- The writer has noted what was sent.
abbrev IsNoted : StatusResponseWriter → Type 0
IsNoted w =
    ((w.status ≡ 0) × (w.response_writer.sent ≡ none))
    ⊎ ((w.status ≢ 0) × ((h : Header) × (w.response_writer.sent ≡ some (w.status, h))))

send_header_unsent :
    (code : ℕ) (w : Writer)
    → 200 ≤ code
    → code ≤ 999
    → w.sent ≡ none
    → send_header code w ≡ some (record w { sent = some (code, w.header) })
unfolding send_header
send_header_unsent code w low high unsent =
    let valid : (ltb code 100 || ltb 999 code) ≡ false = ground arith in
    let final : (ltb code 200 && not (code == 101)) ≡ false = ground arith in
    rw (unsent, send_header, valid, final) refl

send_header_closed :
    (code : ℕ) (w : Writer) (sent : ℕ × Header) → w.sent ≡ some sent → send_header code w ≡ some w
unfolding send_header
send_header_closed code w sent h = ground arith

-- What one call leaves, with the wrapper and without.
call_lem :
    (c : Call) (w : StatusResponseWriter)
    → IsCall c
    → IsNoted w
    → (w' : StatusResponseWriter) × (call c w ≡ some w')
      × (call_plain c w.response_writer ≡ some w'.response_writer)
      × IsNoted w'
unfolding write_header write Http.write_header Http.write send_header
call_lem (sets k v) w h n =
    (record w { response_writer = set_header k v w.response_writer }, refl, refl, n)
call_lem (writes_header code) w (low, high) (inl (zero_yet, unsent)) =
    let sends = send_header_unsent code w.response_writer low high unsent in
    (
      record {
        response_writer = record (w.response_writer) {
          sent = some (code, w.response_writer.header);
        };
        status = code;
      },
      rw (zero_yet, write_header, sends) refl,
      sends,
      inr ((λ e. omega (arith, e, low)), (w.response_writer.header, refl)),
    )
call_lem (writes_header code) w h (inr (noted, (header, sent))) =
    let closed : (w.status == 0) ≡ false = ground arith in
    (
      w,
      rw (closed, write_header) refl,
      send_header_closed code w.response_writer (w.status, header) sent,
      inr (noted, (header, sent)),
    )
call_lem (writes b) w h (inl (zero_yet, unsent)) = (
  write b w,
  refl,
  refl,
  rw (zero_yet, unsent) (inr (ground arith, (w.response_writer.header, refl))),
)
call_lem (writes b) w h (inr (noted, (header, sent))) =
    let closed : (w.status == 0) ≡ false = ground arith in
    (write b w, refl, refl, rw (closed, sent) (inr (noted, (header, refl))))

run_lem :
    (calls : List Call) (w : StatusResponseWriter)
    → All IsCall calls
    → IsNoted w
    → (w' : StatusResponseWriter) × (run calls w ≡ some w')
      × (run_plain calls w.response_writer ≡ some w'.response_writer)
      × IsNoted w'
unfolding run run_plain
run_lem [] w h n = (w, refl, refl, n)
run_lem (c ∷ calls) w (p, h) n =
    let (w1, called, plain, noted) = call_lem c w p n in
    let (w2, done, plain_done, end) = run_lem calls w1 h noted in
    (w2, rw (called, run) done, rw (plain, run_plain) plain_done, end)

status_code_lem :
    (w : StatusResponseWriter) → IsNoted w → status_code w ≡ status_got w.response_writer
unfolding status_code
status_code_lem w (inl (zero_yet, unsent)) = rw (unsent, zero_yet) refl
status_code_lem w (inr (noted, (h, sent))) = rw sent (ground arith)

-- On a writer that has sent nothing, and where every status that the handler writes is from 200 to 999:
-- nothing panics, and the client gets what the handler's calls would give it without the wrapper. Each
-- request adds one to the requests and one to the responses, under the same method and path, and the
-- responses under the status that the client gets.
pub serve_http_counts :
    (handler : Request → List Call) (w : Writer) (r : Request) (m : Metrics)
    → w.sent ≡ none
    → All IsCall (handler r)
    → (got : Writer) × (run_plain (handler r) w ≡ some got)
      × (serve_http handler w r m
          ≡ some (
            record {
              requests = (r.method, metric_path r.path) ∷ m.requests;
              responses = (r.method, metric_path r.path, itoa (status_got got)) ∷ m.responses;
            },
            got,
          ))
unfolding serve_http
serve_http_counts handler w r m fresh h =
    let (w', done, plain, noted) = run_lem (handler r) (wrap w) h (inl (refl, fresh)) in
    (w'.response_writer, plain, rw (done, serve_http, status_code_lem w' noted) refl)
