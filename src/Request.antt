-- ===== src/Request.antt =====
-- The parts of an `http.Request` that the program reads. `query` is the value of `URL.Query()`, and
-- `url` that of `URL.String()`.
use registry_redirect.Prelude.{List, Bytes}
use registry_redirect.Header.{Header}

pub record Request : Type 0 where
  pub method : Bytes
  pub url : Bytes
  pub path : Bytes
  pub query : List (Bytes × List Bytes)
  pub host : Bytes
  pub header : Header
  pub remote_addr : Bytes
