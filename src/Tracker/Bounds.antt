-- ===== src/Tracker/Bounds.antt =====
-- The tracker never holds more clients than its limit, and each `Record` counts its client once.
use registry_redirect.Prelude.{
  ℕ, ◌≤◌, ◌<◌, ◌≡◌, ◌≢◌, refl, Option, none, some, List, [], ◌∷◌, Bytes, Bytes-discrete, arith,
  Option-cases, Bool-cases, inl, inr, leb, length, ◌⊎◌, sym, ap, ◌∙◌, ℤ,
}
use registry_redirect.GoMap.{
  IsMap, lookup, insert, erase, lookup-erase, lookup-insert_self, lookup-insert_ne, insert-IsMap,
  erase-IsMap, length-erase, length-insert_new, length-insert_old,
}
use registry_redirect.Tracker.{Entry, Tracker, init, increment, make_room, record_locked}
use registry_redirect.Tracker.Lowest.{IsKeyed, IsLowest, remove_lowest-IsLowest}

pub record IsValid (t : Tracker) : Type 0 where
  pub positive : 0 < t.limit
  pub is_map : IsMap Bytes-discrete t.counts
  pub keyed : IsKeyed t.counts
  pub capped : length t.counts ≤ t.limit

-- The constructor gives an empty tracker with room for a client, whatever the limit asked for.
pub init-IsValid : (limit : ℤ) → IsValid (init limit)
unfolding init
init-IsValid limit = record {
  positive = ground arith;
  is_map = tt;
  keyed = tt;
  capped = omega arith;
}

erase-IsKeyed :
    (k : Bytes) (m : List (Bytes × Entry)) → IsKeyed m → IsKeyed (erase Bytes-discrete k m)
unfolding erase
erase-IsKeyed k [] h = tt
erase-IsKeyed k ((j, e) ∷ m) (own, h) = ground (arith, erase-IsKeyed k m h)

insert-IsKeyed :
    (k : Bytes) (e : Entry) (m : List (Bytes × Entry))
    → IsKeyed m
    → e.ip ≡ k
    → IsKeyed (insert Bytes-discrete k e m)
unfolding insert
insert-IsKeyed k e [] h own = (own, tt)
insert-IsKeyed k e ((j, f) ∷ m) (there, h) own = ground (arith, insert-IsKeyed k e m h own)

pub ip_of_lookup :
    (k : Bytes) (e : Entry) (m : List (Bytes × Entry))
    → IsKeyed m
    → lookup Bytes-discrete k m ≡ some e
    → e.ip ≡ k
unfolding lookup
ip_of_lookup k e [] h found = absurd (ground arith)
ip_of_lookup k e ((j, f) ∷ m) (own, h) found = ground (arith, ip_of_lookup k e m h)

-- What `Record` keeps to make room for a new client: it fits below the limit, and all of it is
-- there unless the tracker is full, when the lowest entry alone is gone.
record IsRoom (t : Tracker) (m : List (Bytes × Entry)) : Type 0 where
  is_map : IsMap Bytes-discrete m
  keyed : IsKeyed m
  room : length m < t.limit
  kept :
      (q : Bytes)
      → (lookup Bytes-discrete q m ≡ lookup Bytes-discrete q t.counts)
        ⊎ ((lookup Bytes-discrete q m ≡ none)
            × (length t.counts ≡ t.limit)
            × ((low : Entry) × IsLowest t.counts low × (low.ip ≡ q)))

make_room-IsRoom : (t : Tracker) → IsValid t → IsRoom t (make_room t)
unfolding make_room
make_room-IsRoom t h = elim (Bool-cases (leb t.limit (length t.counts))) [
  | inr space ↦
      rw (space, make_room)
        (record { is_map = h.is_map; keyed = h.keyed; room = ground arith; kept = λ q. inl refl })
  | inl full ↦
      let limit_le : t.limit ≤ length t.counts = ground arith in
      let (low, is_low, removed) =
        remove_lowest-IsLowest t.counts (omega (arith, h.positive)) h.is_map h.keyed in
      rw (full, make_room, removed)
        (record {
          is_map = erase-IsMap Bytes-discrete low.ip t.counts h.is_map;
          keyed = erase-IsKeyed low.ip t.counts h.keyed;
          room = omega (
            arith,
            length-erase Bytes-discrete low.ip low t.counts h.is_map is_low.listed,
            h.capped,
          );
          kept = λ q. elim (Bytes-discrete q low.ip) [
            | yes same ↦ inr (
              ground (arith, lookup-erase Bytes-discrete q low.ip t.counts),
              omega (arith, h.capped),
              (low, is_low, sym same),
            )
            | no other ↦ inl (ground (arith, lookup-erase Bytes-discrete q low.ip t.counts))
          ];
        })
]

abbrev pub count_in : Option Entry → ℕ
count_in none = 0
count_in (some e) = e.count

one_count : 1 ≡ increment 0
unfolding increment
one_count = refl

-- The count of a client, 0 if the tracker does not hold it.
abbrev pub count_of : Bytes → Tracker → ℕ
count_of q t = count_in (lookup Bytes-discrete q t.counts)

-- `Record` keeps a valid tracker valid: the limit is above 0, and at most that many clients are
-- held, each once and under its own address.
pub record_locked-IsValid : (ip : Bytes) (t : Tracker) → IsValid t → IsValid (record_locked ip t)
unfolding record_locked
record_locked-IsValid ip t h = elim (Option-cases (lookup Bytes-discrete ip t.counts)) [
  | inr (e, old) ↦
      rw (old, record_locked)
        (record {
          positive = h.positive;
          is_map = insert-IsMap Bytes-discrete ip _ t.counts h.is_map;
          keyed = insert-IsKeyed ip _ t.counts h.keyed (ip_of_lookup ip e t.counts h.keyed old);
          capped = omega (arith, length-insert_old Bytes-discrete ip _ e t.counts old, h.capped);
        })
  | inl new ↦
      let r = make_room-IsRoom t h in
      let absent : lookup Bytes-discrete ip (make_room t) ≡ none = ground (arith, r.kept ip) in
      rw (new, record_locked)
        (record {
          positive = h.positive;
          is_map = insert-IsMap Bytes-discrete ip _ (make_room t) r.is_map;
          keyed = insert-IsKeyed ip _ (make_room t) r.keyed refl;
          capped =
              omega (arith, length-insert_new Bytes-discrete ip _ (make_room t) absent, r.room);
        })
]

-- On a valid tracker `Record` adds one to the count of its client, modulo 2 ^ 64, and leaves the
-- entry of any other client alone, unless the client is new and the tracker full: then the entry
-- that is gone has a lowest count, and of those the oldest sequence number.
pub record_locked_lem :
    (ip : Bytes) (t : Tracker)
    → IsValid t
    → (count_of ip (record_locked ip t) ≡ increment (count_of ip t))
      × ((q : Bytes)
          → q ≢ ip
          → (lookup Bytes-discrete q (record_locked ip t).counts ≡ lookup Bytes-discrete q t.counts)
            ⊎ ((lookup Bytes-discrete ip t.counts ≡ none)
                × (length t.counts ≡ t.limit)
                × ((low : Entry) × IsLowest t.counts low × (low.ip ≡ q))))
unfolding record_locked
record_locked_lem ip t h = elim (Option-cases (lookup Bytes-discrete ip t.counts)) [
  | inr (e, old) ↦
      rw (old, record_locked)
        (
          rw lookup-insert_self refl,
          λ q other. inl (lookup-insert_ne Bytes-discrete q ip _ t.counts other),
        )
  | inl new ↦
      rw (new, record_locked)
        (
          ap count_in (lookup-insert_self Bytes-discrete ip _ (make_room t)) ∙ one_count,
          λ q other.
              rw (lookup-insert_ne Bytes-discrete q ip _ (make_room t) other)
                (others q ((make_room-IsRoom t h).kept q)),
        )
]
  where
    others :
        (q : Bytes)
        → (lookup Bytes-discrete q (make_room t) ≡ lookup Bytes-discrete q t.counts)
          ⊎ ((lookup Bytes-discrete q (make_room t) ≡ none)
              × (length t.counts ≡ t.limit)
              × ((low : Entry) × IsLowest t.counts low × (low.ip ≡ q)))
        → (lookup Bytes-discrete q (make_room t) ≡ lookup Bytes-discrete q t.counts)
          ⊎ ((Path (Option Entry) none none)
              × (length t.counts ≡ t.limit)
              × ((low : Entry) × IsLowest t.counts low × (low.ip ≡ q)))
    others q (inl same) = inl same
    others q (inr (gone, full, low)) = inr (refl, full, low)
