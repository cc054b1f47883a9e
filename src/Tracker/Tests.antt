-- ===== src/Tracker/Tests.antt =====
-- Runs of the tracker, and its theorems at concrete trackers.
use registry_redirect.Prelude.{
  ◌≡◌, ◌≢◌, ◌⊎◌, refl, none, some, [], ◌∷◌, arith, Bytes, Bytes-discrete, codes, length, pos,
  negsuc,
}
use registry_redirect.GoMap.{lookup, insert, erase}
use registry_redirect.Strings.{less_bytes}
use registry_redirect.Tracker.{
  Entry, Tracker, init, increment, less_noisy, lowest_from, remove_lowest, make_room, record_locked,
  record_ip, sorts_before, insert_sorted, sort_counts, snapshot, top, fill, top_map,
}
use registry_redirect.Tracker.Lowest.{IsLowest}
use registry_redirect.Tracker.Bounds.{IsValid, count_of, record_locked-IsValid, record_locked_lem}
use registry_redirect.Tracker.Top.{IsReport, top-IsReport}

program : Unit {0}
unfolding lookup insert erase Bytes-discrete init increment less_noisy lowest_from remove_lowest
    make_room record_locked record_ip less_bytes sorts_before insert_sorted sort_counts snapshot top
    fill top_map
program = tt

abbrev a : Bytes
a = codes "a"

abbrev b : Bytes
b = codes "b"

abbrev c : Bytes
c = codes "c"

-- A tracker for two clients after `a`, `b`, `b`.
abbrev two : Tracker
two = record {
  limit = 2;
  sequence = 3;
  counts =
      (a, record { ip = a; count = 1; sequence = 1 })
      ∷ (b, record { ip = b; count = 2; sequence = 3 })
      ∷ [];
}

three_records :
    record_ip b (record_ip b (record_ip a (some (record (init (pos 2)) { limit = 2 })))) ≡ some two
unfolding program
three_records = refl

-- The new client takes the place of `a`.
fourth_record : top (record_ip c (some two)) ≡ (b, 2) ∷ (c, 1) ∷ []
unfolding program
fourth_record = refl

negative_limit : (init (negsuc 3)).limit ≡ 50
unfolding program
negative_limit = refl

two-IsValid : IsValid two
unfolding program
two-IsValid = record {
  positive = omega arith;
  is_map = (refl, (refl, tt));
  keyed = (refl, (refl, tt));
  capped = omega arith;
}

record_locked-IsValid_example : IsValid (record_locked c two)
record_locked-IsValid_example = record_locked-IsValid c two two-IsValid

record_locked_lem_example :
    (count_of c (record_locked c two) ≡ increment (count_of c two))
    × ((q : Bytes)
        → q ≢ c
        → (lookup Bytes-discrete q (record_locked c two).counts
            ≡ lookup Bytes-discrete q two.counts)
          ⊎ ((lookup Bytes-discrete c two.counts ≡ none)
              × (length two.counts ≡ two.limit)
              × ((low : Entry) × IsLowest two.counts low × (low.ip ≡ q))))
record_locked_lem_example = record_locked_lem c two two-IsValid

top-IsReport_example : IsReport two (top (some two))
top-IsReport_example = top-IsReport two two-IsValid
