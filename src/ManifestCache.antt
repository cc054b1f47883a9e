-- ===== src/ManifestCache.antt =====
-- pkg/redirect/manifest_cache.go: the cache of manifest responses, bounded by bytes, with the map
-- of keys to list elements and the `container/list` in order of use. A list element is its
-- identity (a number that is never given twice) beside its entry, which the code never writes to.
-- The mutex makes each method one step.
pub mod Entries
pub mod Linked
pub mod Lru
pub mod Eviction
pub mod Refines
pub mod History
mod Tests
use registry_redirect.Prelude.{
  ℕ, zero, suc, ◌+◌, ◌-◌, Bool, true, false, Option, none, some, List, [], ◌∷◌, Bytes,
  Bytes-discrete, ℕ_discrete, ltb, if◌then◌else◌, length,
}
use registry_redirect.GoMap.{lookup, insert, erase}
use registry_redirect.Header.{Header, add_header_sizes}

-- `manifestCacheEntry`.
pub record Entry : Type 0 where
  pub key : Bytes
  pub status : ℕ
  pub header : Header
  pub body : Bytes
  pub size : ℕ

-- `*list.Element`.
abbrev pub Element : Type 0
Element = ℕ × Entry

-- `manifestCache`, and the next identity of a list element.
pub record Cache : Type 0 where
  pub max_bytes : ℕ
  pub used : ℕ
  pub items : List (Bytes × Element)
  pub order : List Element
  pub fresh : ℕ

unfoldable pub init : ℕ → Cache
init max_bytes = record { max_bytes = max_bytes; used = 0; items = []; order = []; fresh = 0 }

unfoldable pub max_body_bytes : Cache → ℕ
max_body_bytes c = c.max_bytes

unfoldable pub entry_size : Header → Bytes → ℕ
entry_size header body = add_header_sizes (length body) header

-- `c.order.MoveToFront(el)`: nothing happens to a list that does not hold the element.
unfoldable pub move_to_front : Element → List Element → List Element
move_to_front el order = elim (lookup ℕ_discrete el.0 order) [
  | none ↦ order
  | some e ↦ (el.0, e) ∷ erase ℕ_discrete el.0 order
]

unfoldable pub get : Bytes → Cache → Cache × Option Entry
get key c = elim (lookup Bytes-discrete key c.items) [
  | none ↦ (c, none)
  | some el ↦ (record c { order = move_to_front el c.order }, some el.1)
]

-- `c.order.Back()`.
unfoldable pub back : List Element → Option Element
back [] = none
back (el ∷ []) = some el
back (el ∷ f ∷ l) = back (f ∷ l)

-- `c.used -= entry.size`, `c.order.Remove(el)` and `delete(c.items, key)`: what `set` does with an
-- older entry for its key, and `removeOldest`, in another order, with the last element and its key.
unfoldable pub detach : Bytes → Element → Cache → Cache
detach key el c = record c {
  used = c.used - el.1.size;
  order = erase ℕ_discrete el.0 c.order;
  items = erase Bytes-discrete key c.items;
}

unfoldable pub remove_oldest : Cache → Cache
remove_oldest c = elim (back c.order) [ none ↦ c | some oldest ↦ detach oldest.1.key oldest c ]

-- `for c.used > c.maxBytes { c.removeOldest() }`; `none` when the fuel runs out.
unfoldable pub evict : ℕ → Cache → Option Cache
evict zero c = if ltb c.max_bytes c.used then none else some c
evict (suc fuel) c =
    let rest = evict fuel (remove_oldest c) in if ltb c.max_bytes c.used then rest else some c

-- `c.items[key] = c.order.PushFront(entry)` and `c.used += size`.
unfoldable pub push_front : Entry → Cache → Cache
push_front e c = record c {
  used = c.used + e.size;
  items = insert Bytes-discrete e.key (c.fresh, e) c.items;
  order = (c.fresh, e) ∷ c.order;
  fresh = c.fresh + 1;
}

-- The `if existing := c.items[key]; existing != nil` block.
unfoldable pub drop_existing : Bytes → Cache → Cache
drop_existing key c = elim (lookup Bytes-discrete key c.items) [
  | none ↦ c
  | some el ↦ detach key el c
]

unfoldable pub make_entry : Bytes → ℕ → Header → Bytes → Entry
make_entry key status header body = record {
  key = key;
  status = status;
  header = header;
  body = body;
  size = entry_size header body;
}

-- The fuel is one round for each element of the list.
unfoldable pub set : Bytes → ℕ → Header → Bytes → Cache → Option (Cache × Bool)
set key status header body c =
    let pushed = push_front (make_entry key status header body) (drop_existing key c) in
    let evicted : Option (Cache × Bool) = elim (evict (length pushed.order) pushed) [
      | none ↦ none
      | some c' ↦ some (c', true)
    ] in
    if ltb c.max_bytes (entry_size header body) then some (c, false) else evicted
