-- ===== src/Http/Tests.antt =====
-- Runs of the functions on bodies and errors, and their theorems there.
use registry_redirect.Prelude.{◌≡◌, refl, true, false, some, codes}
use registry_redirect.Http.{
  Body, read_failed, read_some, read_body_with_limit, Failure, backend_error_class,
  backend_error_status,
}

program : Unit {0}
unfolding read_body_with_limit backend_error_class backend_error_status
program = tt

abbrev cut : Failure
cut = record {
  text = codes "unexpected EOF";
  canceled = false;
  deadline_exceeded = false;
  timeout = false;
}

abbrev broken_body : Body
broken_body = record { content = codes "abc"; failure = some cut }

reads :
    (read_body_with_limit broken_body 3 ≡ read_failed cut)
    × (read_body_with_limit broken_body 1
        ≡ read_some (codes "ab") true (record broken_body { content = codes "c" }))
unfolding program
reads = (refl, refl)

abbrev late : Failure
late = record { text = codes "late"; canceled = false; deadline_exceeded = false; timeout = true }
