-- ===== src/Status.antt =====
-- The handler around all others, in main.go: `statusResponseWriter`, which notes the status of a reply,
-- and `CustomHandler.ServeHTTP`, which counts requests and replies by it. A handler is the list of its
-- calls of the response writer. The timing of replies is left out.
pub mod Counting
mod Tests
use registry_redirect.Prelude.{
  ℕ, Bool, true, false, not, ◌&&◌, ◌||◌, Option, none, some, List, [], ◌∷◌, Bytes, ltb, ◌==◌,
  if◌then◌else◌,
}
use registry_redirect.Decimal.{itoa}
use registry_redirect.Header
use registry_redirect.Http
use registry_redirect.Http.{Writer}
use registry_redirect.Paths.{metric_path}
use registry_redirect.Request.{Request}

-- `WriteHeader` of net/http: where no status was sent, it panics at what is not a status, and sends an
-- informational one ahead of the reply, whose status is still to come. What goes ahead is left out.
unfoldable pub send_header : ℕ → Writer → Option Writer
send_header code w = elim w.sent [
  | some _ ↦ some w
  | none ↦
      if ltb code 100 || ltb 999 code
      then none
      else if ltb code 200 && not (code == 101)
      then some w
      else some (record w { sent = some (code, w.header) })
]

-- The status is 0 until one is sent.
pub record StatusResponseWriter : Type 0 where
  pub response_writer : Writer
  pub status : ℕ

abbrev pub wrap : Writer → StatusResponseWriter
wrap w = record { response_writer = w; status = 0 }

abbrev pub noted : ℕ → Option Writer → Option StatusResponseWriter
noted code none = none
noted code (some w) = some (record { response_writer = w; status = code })

unfoldable pub write_header : ℕ → StatusResponseWriter → Option StatusResponseWriter
write_header code w =
    if w.status == 0 then noted code (send_header code w.response_writer) else some w

unfoldable pub write : Bytes → StatusResponseWriter → StatusResponseWriter
write b w = record {
  response_writer = Http.write b w.response_writer;
  status = if w.status == 0 then 200 else w.status;
}

unfoldable pub status_code : StatusResponseWriter → ℕ
status_code w = if w.status == 0 then 200 else w.status

-- A call of the response writer: `Header().Set`, `WriteHeader`, `Write`.
pub data Call : Type 0 where
  sets : Bytes → Bytes → Call
  writes_header : ℕ → Call
  writes : Bytes → Call

abbrev pub set_header : Bytes → Bytes → Writer → Writer
set_header k v w = record w { header = Header.set w.header k v }

abbrev pub call : Call → StatusResponseWriter → Option StatusResponseWriter
call (sets k v) w = some (record w { response_writer = set_header k v w.response_writer })
call (writes_header code) w = write_header code w
call (writes b) w = some (write b w)

-- The calls of a handler, up to a panic.
unfoldable pub run : List Call → StatusResponseWriter → Option StatusResponseWriter
run [] w = some w
run (c ∷ calls) w = elim (call c w) [ none ↦ none | some w' ↦ run calls w' ]

-- The labels of the two counters, the last first.
pub record Metrics : Type 0 where
  pub requests : List (Bytes × Bytes)
  pub responses : List (Bytes × Bytes × Bytes)

-- The counters and the reply, and none where the handler panics.
unfoldable pub serve_http :
    (Request → List Call) → Writer → Request → Metrics → Option (Metrics × Writer)
serve_http handler w r m =
    let path = metric_path r.path in
    elim (run (handler r) (wrap w)) [
      | none ↦ none
      | some rw ↦ some (
        record {
          requests = (r.method, path) ∷ m.requests;
          responses = (r.method, path, itoa (status_code rw)) ∷ m.responses;
        },
        rw.response_writer,
      )
    ]
