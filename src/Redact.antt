-- ===== src/Redact.antt =====
-- `redact` of pkg/redirect/redirect.go, which every header goes through on its way to the log.
pub mod Hidden
mod Tests
use registry_redirect.Prelude.{Bytes, codes, if◌then◌else◌}
use registry_redirect.Header
use registry_redirect.Header.{Header}
use registry_redirect.Tokens.{is_nil}

unfoldable pub redact : Header → Header
redact h =
    if is_nil (Header.get h (codes "Authorization"))
    then h
    else Header.set h (codes "Authorization") (codes "REDACTED")
