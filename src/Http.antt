-- ===== src/Http.antt =====
-- What the handlers use of net/http: the response writer, `http.Error`, bodies that are read to a
-- limit, and requests to the registry; with `readBodyWithLimit`, `copyHeaders`, `backendErrorStatus`
-- and `backendErrorClass` of pkg/redirect/redirect.go and `writeRateLimited` of
-- pkg/redirect/rate_limiter.go.
pub mod Bodies
mod Tests
use registry_redirect.Prelude.{
  ℕ, ◌+◌, Bool, true, false, ◌||◌, Option, none, some, List, [], ◌∷◌, ◌++◌, Bytes, codes, ltb, leb,
  if◌then◌else◌, length, take, drop,
}
use registry_redirect.Header
use registry_redirect.Header.{Header}

-- `http.ResponseWriter` with a client that reads to the end: the header map, the status and the
-- header that were sent, and the body.
pub record Writer : Type 0 where
  pub header : Header
  pub sent : Option (ℕ × Header)
  pub body : Bytes

abbrev pub new_writer : Writer
new_writer = record { header = []; sent = none; body = [] }

-- `WriteHeader` of a final status: the first call counts.
unfoldable pub write_header : ℕ → Writer → Writer
write_header code w = elim w.sent [ none ↦ record w { sent = some (code, w.header) } | some _ ↦ w ]

-- `Write` sends the status 200 first where none was sent.
unfoldable pub write : Bytes → Writer → Writer
unfolding write_header
write b w = record (write_header 200 w) { body = w.body ++ b }

-- `http.Error`.
unfoldable pub error : Bytes → ℕ → Writer → Writer
error text code w =
    let header =
      Header.set
        (Header.set (Header.del w.header (codes "Content-Length")) (codes "Content-Type")
          (codes "text/plain; charset=utf-8"))
        (codes "X-Content-Type-Options") (codes "nosniff") in
    write (text ++ b'\n' ∷ []) (write_header code (record w { header = header }))

-- `writeRateLimited`.
unfoldable pub write_rate_limited : Writer → Writer
write_rate_limited w =
    write
      (codes
        "{\"errors\":[{\"code\":\"TOOMANYREQUESTS\",\"message\":\"request rate limit exceeded\"}]}")
      (write_header 429 (record w {
        header =
            Header.set (Header.set w.header (codes "Content-Type") (codes "application/json"))
              (codes "Retry-After") (codes "1");
      }))

-- An error of a request to the registry, or of its body: its text, whether it is `context.Canceled` or
-- `context.DeadlineExceeded`, and whether it has a `Timeout` method that says so.
pub record Failure : Type 0 where
  pub text : Bytes
  pub canceled : Bool
  pub deadline_exceeded : Bool
  pub timeout : Bool

-- A response body: the bytes that come, and the error that ends them, if any. The error
-- comes in a read of its own.
pub record Body : Type 0 where
  pub content : Bytes
  pub failure : Option Failure

-- The results of `readBodyWithLimit`, with the body that is left to read.
pub data Read : Type 0 where
  read_failed : Failure → Read
  read_some : Bytes → Bool → Body → Read

-- `io.ReadAll(limited)`: up to the limit, which hides what comes after it.
unfoldable pub read_body_with_limit : Body → ℕ → Read
read_body_with_limit body max_bytes =
    if ltb max_bytes (length body.content)
    then read_some (take (max_bytes + 1) body.content) true
        (record body { content = drop (max_bytes + 1) body.content })
    else elim body.failure [
      | some f ↦ read_failed f
      | none ↦ read_some body.content false (record { content = []; failure = none })
    ]

-- `copyHeaders`: the inner loop, and the loop over the keys.
unfoldable pub copy_values : Bytes → List Bytes → Header → Header
copy_values key [] dst = dst
copy_values key (v ∷ vs) dst = copy_values key vs (Header.add dst key v)

unfoldable pub copy_headers : Header → Header → Header
copy_headers dst [] = dst
copy_headers dst ((key, vs) ∷ src) = copy_headers (copy_values key vs dst) src

unfoldable pub backend_error_status : Failure → ℕ
backend_error_status f = if f.deadline_exceeded then 504 else if f.timeout then 504 else 500

unfoldable pub backend_error_class : Failure → Bytes
backend_error_class f =
    if f.canceled
    then codes "canceled"
    else if f.deadline_exceeded
    then codes "timeout"
    else if f.timeout
    then codes "timeout"
    else codes "other"

-- A request to the registry, and what comes of it.
pub record Outgoing : Type 0 where
  pub method : Bytes
  pub url : Bytes
  pub header : Header

pub record Reply : Type 0 where
  pub status : ℕ
  pub header : Header
  pub body : Body

pub data Back : Type 0 where
  failed : Failure → Back
  answered : Reply → Back
