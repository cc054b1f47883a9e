-- ===== src/Tracker.antt =====
-- pkg/redirect/rate_limit_tracker.go: the counters of the clients that were refused most often.
-- The tracker may be nil. The two counters of the source are uint64 and wrap around. The mutex makes
-- each method one step, and the order of the map's list is that of its `range` loops.
pub mod Lowest
pub mod Bounds
pub mod Top
mod Tests
use registry_redirect.Prelude.{
  ℕ, suc, ◌+◌, ◌%◌, ◌^◌, Bool, true, false, Option, none, some, List, [], ◌∷◌, Bytes,
  Bytes-discrete, ltb, leb, ◌==◌, if◌then◌else◌, length, take, ite, ℤ, is_pos, pos_part,
}
use registry_redirect.GoMap.{lookup, insert, erase}
use registry_redirect.Strings.{less_bytes}

-- `rateLimitedIPEntry`.
pub record Entry : Type 0 where
  pub ip : Bytes
  pub count : ℕ
  pub sequence : ℕ

-- `RateLimitedIPTracker`.
pub record Tracker : Type 0 where
  pub limit : ℕ
  pub sequence : ℕ
  pub counts : List (Bytes × Entry)

abbrev pub default_limit : ℕ
default_limit = 50

unfoldable pub init : ℤ → Tracker
init limit = record {
  limit = if is_pos limit then pos_part limit else default_limit;
  sequence = 0;
  counts = [];
}

-- `x++` on uint64.
unfoldable pub increment : ℕ → ℕ
increment x = (x + 1) % 2 ^ 64

unfoldable pub less_noisy : Entry → Entry → Bool
less_noisy a b = if a.count == b.count then ltb a.sequence b.sequence else ltb a.count b.count

-- The loop of `removeLowestLocked`, over the entries left to visit.
unfoldable pub lowest_from : Option Entry → List (Bytes × Entry) → Option Entry
lowest_from lowest [] = lowest
lowest_from none ((_, entry) ∷ m) = lowest_from (some entry) m
lowest_from (some low) ((_, entry) ∷ m) =
    lowest_from (some (if less_noisy entry low then entry else low)) m

unfoldable pub remove_lowest : List (Bytes × Entry) → List (Bytes × Entry)
remove_lowest counts = elim (lowest_from none counts) [
  | none ↦ counts
  | some lowest ↦ erase Bytes-discrete lowest.ip counts
]

-- The counts that `Record` makes room in for a new client.
unfoldable pub make_room : Tracker → List (Bytes × Entry)
make_room t = if leb t.limit (length t.counts) then remove_lowest t.counts else t.counts

-- `Record` under the lock.
unfoldable pub record_locked : Bytes → Tracker → Tracker
record_locked ip t =
    let sequence = increment t.sequence in
    elim (lookup Bytes-discrete ip t.counts) [
      | some entry ↦ record t {
        sequence = sequence;
        counts =
            insert Bytes-discrete ip
              (record entry { count = increment entry.count; sequence = sequence }) t.counts;
      }
      | none ↦ record t {
        sequence = sequence;
        counts =
            insert Bytes-discrete ip (record { ip = ip; count = 1; sequence = sequence })
              (make_room t);
      }
    ]

unfoldable pub record_ip : Bytes → Option Tracker → Option Tracker
record_ip ip none = none
record_ip ip (some t) = ite (Bytes-discrete ip []) (some t) (some (record_locked ip t))

-- `RateLimitedIPCount`: an address and its count.
abbrev pub Count : Type 0
Count = Bytes × ℕ

-- The order of `sortRateLimitedIPCounts`: higher counts first, then by address.
unfoldable pub sorts_before : Count → Count → Bool
sorts_before a b = if a.1 == b.1 then less_bytes a.0 b.0 else ltb b.1 a.1

-- `sort.Slice` leaves the algorithm open. The comparison is a strict total order on the counts of
-- distinct addresses, so that every sorting algorithm gives what this insertion sort gives.
unfoldable pub insert_sorted : Count → List Count → List Count
insert_sorted c [] = c ∷ []
insert_sorted c (d ∷ l) = if sorts_before d c then d ∷ insert_sorted c l else c ∷ d ∷ l

unfoldable pub sort_counts : List Count → List Count
sort_counts [] = []
sort_counts (c ∷ l) = insert_sorted c (sort_counts l)

unfoldable pub snapshot : List (Bytes × Entry) → List Count
snapshot [] = []
snapshot ((_, entry) ∷ m) = (entry.ip, entry.count) ∷ snapshot m

unfoldable pub top : Option Tracker → List Count
top none = []
top (some t) =
    let counts = sort_counts (snapshot t.counts) in
    if ltb t.limit (length counts) then take t.limit counts else counts

-- The loop of `TopMap`.
unfoldable pub fill : List Count → List (Bytes × ℕ) → List (Bytes × ℕ)
fill [] out = out
fill ((ip, count) ∷ l) out = fill l (insert Bytes-discrete ip count out)

unfoldable pub top_map : Option Tracker → List (Bytes × ℕ)
top_map t = fill (top t) []
