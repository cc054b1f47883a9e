-- ===== src/ResponseCache/Tests.antt =====
-- Runs of the response cache, and its theorems at concrete caches.
use registry_redirect.Prelude.{
  ℕ, ◌≤◌, ◌≡◌, refl, none, some, [], ◌∷◌, true, false, Bytes, Bytes-discrete, codes,
}
use registry_redirect.GoMap.{lookup, insert, erase, sweep}
use registry_redirect.ResponseCache.{
  Response, Cache, init, get, has, drop_expired, store, set_full, set,
}
use registry_redirect.ResponseCache.Expiry.{readable, readable-get}

program : Unit {0}
unfolding lookup insert erase sweep Bytes-discrete init get has drop_expired store set_full set
program = tt

abbrev a : Bytes
a = codes "a"

abbrev b : Bytes
b = codes "b"

abbrev answer : Response
answer = record { status = 200; header = []; body = codes "{}" }

-- Room for one entry, which expires at 15.
abbrev one : Cache
one = record { ttl = 10; max = 1; entries = (a, record { value = answer; expires_at = 15 }) ∷ [] }

first_set : set 5 a answer (some (init 10 1)) ≡ (some one, true)
unfolding program
first_set = refl

full : set 14 b answer (some one) ≡ (some one, false)
unfolding program
full = refl

after_expiry :
    set 15 b answer (some one)
    ≡ (some (record one { entries = (b, record { value = answer; expires_at = 25 }) ∷ [] }), true)
unfolding program
after_expiry = refl

expired_get : get 15 a (some one) ≡ (some (record one { entries = [] }), none)
unfolding program
expired_get = refl

readable-get_example :
    ((get 15 a (some one)).1 ≡ readable 15 a (some one))
    × ((t : ℕ) (q : Bytes)
        → 15 ≤ t
        → readable t q (get 15 a (some one)).0 ≡ readable t q (some one))
readable-get_example = readable-get 15 a (some one)
