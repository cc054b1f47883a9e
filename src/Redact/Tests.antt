-- ===== src/Redact/Tests.antt =====
-- A header with credentials.
use registry_redirect.Prelude.{◌≡◌, ◌≢◌, [], ◌∷◌, Bytes, codes}
use registry_redirect.Header
use registry_redirect.Header.{Header}
use registry_redirect.Redact.{redact}
use registry_redirect.Redact.Hidden.{values-redact}

abbrev header : Header
header =
    (codes "Accept", codes "a" ∷ [])
    ∷ (codes "Authorization", codes "Bearer t" ∷ codes "u" ∷ [])
    ∷ []

values-redact_example :
    (Header.get header (codes "Authorization") ≢ []
      → Header.values (redact header) (codes "Authorization") ≡ codes "REDACTED" ∷ [])
    × ((k : Bytes)
        → k ≢ codes "Authorization"
        → Header.values (redact header) k ≡ Header.values header k)
values-redact_example = values-redact header
