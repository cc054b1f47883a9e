-- ===== src/Tracker/Lowest.antt =====
-- Which entry gives way to a new client.
use registry_redirect.Prelude.{
  ◌≡◌, none, some, List, [], ◌∷◌, Bytes, Bytes-discrete, true, false, arith, Option-cases, inl, inr,
  if◌then◌else◌, ◌⊎◌, ◌≢◌, All, length, ◌<◌, ◌≤◌,
}
use registry_redirect.GoMap.{IsMap, lookup, erase}
use registry_redirect.Tracker.{Entry, less_noisy, lowest_from, remove_lowest}

-- Each entry stands under its own address.
abbrev pub IsKeyed : List (Bytes × Entry) → Type 0
IsKeyed m = All (λ kv. kv.1.ip ≡ kv.0) m

pub less_noisy_trans :
    (a b c : Entry) → less_noisy b a ≡ false → less_noisy c b ≡ false → less_noisy c a ≡ false
unfolding less_noisy
less_noisy_trans a b c h k = ground arith

less_noisy_asym : (a b : Entry) → less_noisy a b ≡ true → less_noisy b a ≡ false
unfolding less_noisy
less_noisy_asym a b h = ground arith

-- The loop never ends above the entry that it starts with.
lowest_from-le :
    (a low : Entry) (m : List (Bytes × Entry))
    → lowest_from (some a) m ≡ some low
    → less_noisy a low ≡ false
unfolding lowest_from
lowest_from-le a low [] h = ground (arith, less_noisy_asym a a)
lowest_from-le a low ((k, e) ∷ m) h = ground (
  arith,
  lowest_from-le e low m,
  lowest_from-le a low m,
  less_noisy_trans low e a,
  less_noisy_asym e a,
)

-- No entry of the map is less noisy than the lowest one.
lowest_from_min :
    (a low : Entry) (m : List (Bytes × Entry)) (q : Bytes) (f : Entry)
    → lowest_from (some a) m ≡ some low
    → lookup Bytes-discrete q m ≡ some f
    → less_noisy f low ≡ false
unfolding lowest_from lookup
lowest_from_min a low [] q f h found = absurd (ground arith)
lowest_from_min a low ((k, e) ∷ m) q f h found = ground (
  arith,
  lowest_from_min e low m q f,
  lowest_from_min a low m q f,
  lowest_from-le e low m,
  lowest_from-le a low m,
  less_noisy_trans low a e,
)

lowest_from-listed :
    (a low : Entry) (m : List (Bytes × Entry))
    → IsMap Bytes-discrete m
    → IsKeyed m
    → lowest_from (some a) m ≡ some low
    → (low ≡ a) ⊎ (lookup Bytes-discrete low.ip m ≡ some low)
unfolding lowest_from lookup
lowest_from-listed a low [] u v h = inl (ground arith)
lowest_from-listed a low ((k, e) ∷ m) (new, u) (own, v) h =
    ground (arith, lowest_from-listed e low m u v, lowest_from-listed a low m u v)

lowest_from-ne-none : (a : Entry) (m : List (Bytes × Entry)) → lowest_from (some a) m ≢ none
unfolding lowest_from
lowest_from-ne-none a [] h = cc
lowest_from-ne-none a ((k, e) ∷ m) h = lowest_from-ne-none (if less_noisy e a then e else a) m h

less_noisy-false :
    (f low : Entry)
    → less_noisy f low ≡ false
    → (low.count < f.count) ⊎ ((low.count ≡ f.count) × (low.sequence ≤ f.sequence))
unfolding less_noisy
less_noisy-false f low h = ground arith

-- What `removeLowestLocked` takes out of a map: an entry with the lowest count, and among those
-- the one that was refused least recently.
pub record IsLowest (m : List (Bytes × Entry)) (low : Entry) : Type 0 where
  pub listed : lookup Bytes-discrete low.ip m ≡ some low
  pub least :
      (q : Bytes) (f : Entry)
      → lookup Bytes-discrete q m ≡ some f
      → (low.count < f.count) ⊎ ((low.count ≡ f.count) × (low.sequence ≤ f.sequence))

-- Where the map is not empty and every entry stands under its own address, `removeLowestLocked`
-- takes one entry out, and no other entry has a lower count, or the same count and an older
-- sequence number.
pub remove_lowest-IsLowest :
    (m : List (Bytes × Entry))
    → 0 < length m
    → IsMap Bytes-discrete m
    → IsKeyed m
    → (low : Entry) × IsLowest m low × (remove_lowest m ≡ erase Bytes-discrete low.ip m)
unfolding remove_lowest lowest_from lookup
remove_lowest-IsLowest [] h _ _ = absurd (omega arith)
remove_lowest-IsLowest ((k, e) ∷ m) _ (new, u) (own, v) =
    elim (Option-cases (lowest_from (some e) m)) [
      | inl nothing ↦ absurd (lowest_from-ne-none e m nothing)
      | inr (low, found) ↦ (
        low,
        record {
          listed = ground (arith, lowest_from-listed e low m u v found);
          least = λ q f h.
              less_noisy-false f low
                (ground (arith, lowest_from_min e low m q f found, lowest_from-le e low m found));
        },
        rw (found, remove_lowest),
      )
    ]
