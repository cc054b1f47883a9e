-- ===== src/BlobCache/Tests.antt =====
-- Runs of the blob cache over a store that keeps its last entry, and its theorems there.
use registry_redirect.Prelude.{
  ◌*◌, ◌^◌, ◌≡◌, refl, Bool, true, none, some, [], ◌∷◌, Bytes, Bytes-discrete, codes, arith,
}
use registry_redirect.GoMap.{lookup}
use registry_redirect.Header
use registry_redirect.Header.{Header}
use registry_redirect.BlobCache.{
  Entry, is_cacheable_status, url_expiry, sub, bounded_ttl, ttl, max_ttl, set, get, entry_size,
}
use registry_redirect.BlobCache.Fresh.{set_stale}
use registry_redirect.BlobCache.Ttl.{Expires}
use registry_redirect.Samples.{minutes, last}

program : Unit {0}
unfolding Bytes-discrete lookup Header.get is_cacheable_status url_expiry sub bounded_ttl ttl set
    get
program = tt

abbrev location : Bytes
location = codes "abcd"

abbrev header : Header
header = (codes "Location", location ∷ []) ∷ []

three_minutes : ttl minutes location 0 ≡ some (180 * 10 ^ 9)
unfolding program
three_minutes = refl

too_late : ttl minutes location (180 * 10 ^ 9) ≡ none
unfolding program
too_late = refl

location-Expires : Expires minutes location (240 * 10 ^ 9)
unfolding program
location-Expires = record { value = location; parameter = refl; time = refl }

abbrev entry : Entry
entry = record { status = 307; header = header }

abbrev kept : last.State × Bool
kept = last.set_with_ttl 0 (codes "k") entry (entry_size (codes "k") entry) (180 * 10 ^ 9) none

stored : set last minutes 0 (codes "k") 307 header (some none) ≡ (some kept.0, true)
unfolding program
stored = refl

read_again : get last 7 (codes "k") (some kept.0) ≡ some entry
unfolding program
read_again = refl

-- A link that expired 300 years ago is kept for five minutes.
stale : bounded_ttl (240 * 10 ^ 9) (300 * 365 * 86400 * 10 ^ 9) ≡ some max_ttl
unfolding program
stale = refl

-- One that expired an hour ago is not.
expired : bounded_ttl (240 * 10 ^ 9) (3840 * 10 ^ 9) ≡ none
unfolding program
expired = refl

set_stale_example : set last minutes (2 ^ 64) (codes "k") 307 header (some none) ≡ (
  some (last.set_with_ttl (2 ^ 64) (codes "k") entry (entry_size (codes "k") entry) max_ttl none).0,
  true,
)
set_stale_example =
    set_stale last minutes (2 ^ 64) (codes "k") location 307 (240 * 10 ^ 9) header none
      (unfold program in refl) (unfold program in refl) (λ h. ground arith) location-Expires
      (omega arith)
