-- ===== src/ManifestCache/Tests.antt =====
-- Runs of the manifest cache, and its theorems at concrete caches.
use registry_redirect.Prelude.{
  List, ◌≡◌, refl, true, some, [], ◌∷◌, arith, Bytes, Bytes-discrete, codes, ℕ_discrete,
}
use registry_redirect.GoMap.{lookup, insert, erase}
use registry_redirect.Header.{Header, add_header_sizes}
use registry_redirect.ManifestCache.{
  Entry, Cache, init, entry_size, make_entry, move_to_front, get, back, detach, remove_oldest,
  evict, push_front, drop_existing, set,
}
use registry_redirect.ManifestCache.Entries.{total, find_key}
use registry_redirect.ManifestCache.Linked.{IsValid}
use registry_redirect.ManifestCache.Eviction.{view}
use registry_redirect.ManifestCache.History.{
  Call, get_call, set_call, Answer, run, lru_run, run-lru_run,
}

program : Unit {0}
unfolding lookup insert erase Bytes-discrete ℕ_discrete add_header_sizes entry_size make_entry
    move_to_front get back detach remove_oldest evict push_front drop_existing set init
program = tt

abbrev html : Header
html = (codes "Etag", codes "x" ∷ []) ∷ []

-- Each response takes 10 bytes: 1 of body, 4 of header name, 1 of value and 4 for the value.
abbrev entry : Bytes → Entry
entry key = record { key = key; status = 200; header = html; body = 1 ∷ []; size = 10 }

abbrev a : Bytes
a = codes "a"

abbrev b : Bytes
b = codes "b"

abbrev c : Bytes
c = codes "c"

abbrev two : Cache
two = record {
  max_bytes = 25;
  used = 20;
  items = (a, (0, entry a)) ∷ (b, (1, entry b)) ∷ [];
  order = (1, entry b) ∷ (0, entry a) ∷ [];
  fresh = 2;
}

fill :
    set b 200 html (1 ∷ []) (record two {
      used = 10;
      items = (a, (0, entry a)) ∷ [];
      order = (0, entry a) ∷ [];
      fresh = 1;
    })
    ≡ some (two, true)
unfolding program
fill = refl

-- A hit moves `a` to the front, so that the next response pushes out `b`.
hit_then_store :
    set c 200 html (1 ∷ []) (get a two).0
    ≡ some (
      record two {
        items = (a, (0, entry a)) ∷ (c, (2, entry c)) ∷ [];
        order = (2, entry c) ∷ (0, entry a) ∷ [];
        fresh = 3;
      },
      true,
    )
unfolding program
hit_then_store = refl

two-IsValid : IsValid two
unfolding program total find_key
two-IsValid = record {
  linked = record {
    counted = refl;
    distinct = (refl, (refl, tt));
    below = omega arith;
    keyed = (refl, (refl, tt));
    sized = (refl, (refl, tt));
    indexed = λ k. ground arith;
  };
  fits = omega arith;
}

-- Two responses, a hit on the first, and a third response that pushes out the second.
abbrev calls : List Call
calls =
    set_call a 200 html (1 ∷ [])
    ∷ set_call b 200 html (1 ∷ [])
    ∷ get_call a
    ∷ set_call c 200 html (1 ∷ [])
    ∷ get_call b
    ∷ []

run-lru_run_example :
    (d : Cache) × (answers : List Answer) × (run calls (init 25) ≡ some (d, answers))
    × IsValid d
    × ((view d, answers) ≡ lru_run 25 calls [])
run-lru_run_example = run-lru_run 25 calls
