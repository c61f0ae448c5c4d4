-- ===== src/Store.antt =====
-- cache/store.go: the object store, a map from keys to entries with exact byte accounting. The
-- locks are not modelled: each method holds the store's lock for its whole body (Insert from the
-- first read of the map on), so methods are steps of one sequence.
pub mod Invariant
pub mod Insert
pub mod Contents
pub mod Counts
use Prim.Native.String.{len}
use adaptive_caching.Base.{
  ℕ, suc, Bool, List, [], map, Option, none, some, Key, key_dec, Int64, add64, sub64, lt64, lookup,
  upsert, delete, length, is_some, if◌then◌else◌,
}
use adaptive_caching.Types.{Entry, Value, Time, count_access}

-- The errors of cache/cache.go.
pub data Error : Type 0 where
  object_too_large capacity_exceeded invalid_size : Error

pub data Result {ℓ} (A : Type ℓ) : Type ℓ where
  ok : A → Result A
  err : Error → Result A

-- `next_addr` stands for the allocator: the address of the next new entry.
pub record Store : Type 0 where
  pub items : List (Key × Entry)
  pub bytes : Int64
  pub key_bytes : Int64
  pub capacity : Int64
  pub next_addr : ℕ

unfoldable pub new_store : Int64 → Store
new_store capacity = record {
  items = [];
  bytes = 0;
  key_bytes = 0;
  capacity = capacity;
  next_addr = 0;
}

unfoldable pub get : Key → Store → Option Entry
get key s = lookup key_dec key s.items

-- The access that Touch and a replacing Insert record.
abbrev pub accessed : Time → Entry → Entry
accessed now e = record e { last_access_time = now; access_count = count_access e.access_count }

-- An entry is shared with the map: to change it is to change the map's copy.
unfoldable pub touch : Key → Time → Store → Store × Option Entry
touch key now s = elim (lookup key_dec key s.items) [
  | none ↦ (s, none)
  | some e ↦
      let e' = accessed now e in (record s { items = upsert key_dec key e' s.items }, some e')
]

unfoldable pub contains : Key → Store → Bool
contains key s = is_some (lookup key_dec key s.items)

-- The bytes in use after the insert.
unfoldable pub projected : Option Entry → Int64 → Store → Int64
projected none size s = add64 s.bytes size
projected (some existing) size s = sub64 (add64 s.bytes size) existing.size

-- The two ways in which Insert ends well: in place of an entry, or as a new one.
unfoldable pub replace : Key → Value → Int64 → Time → Entry → Store → Store × Entry
replace key val size now existing s =
    let e = record (accessed now existing) { value = val; size = size } in
    (
      record s {
        items = upsert key_dec key e s.items;
        bytes = add64 (sub64 s.bytes existing.size) size;
      },
      e,
    )

unfoldable pub admit : Key → Value → Int64 → Time → Store → Store × Entry
admit key val size now s =
    let e : Entry = record {
      addr = s.next_addr;
      key = key;
      value = val;
      size = size;
      insertion_time = now;
      last_access_time = now;
      access_count = 1;
    } in
    (
      record s {
        items = upsert key_dec key e s.items;
        bytes = add64 s.bytes size;
        key_bytes = add64 s.key_bytes (len key);
        next_addr = suc s.next_addr;
      },
      e,
    )

unfoldable pub write : Key → Value → Int64 → Time → Option Entry → Store → Store × Entry
unfolding replace admit
write key val size now none s = admit key val size now s
write key val size now (some existing) s = replace key val size now existing s

unfoldable pub insert : Key → Value → Int64 → Time → Store → Result (Store × Entry)
insert key val size now s =
    if lt64 size 0
    then err invalid_size
    else if lt64 s.capacity size
    then err object_too_large
    else if lt64 s.capacity (projected (get key s) size s)
    then err capacity_exceeded
    else ok (write key val size now (get key s) s)

unfoldable pub remove : Key → Store → Store × Option Entry
remove key s = elim (lookup key_dec key s.items) [
  | none ↦ (s, none)
  | some e ↦ (
    record s {
      items = delete key_dec key s.items;
      bytes = sub64 s.bytes e.size;
      key_bytes = sub64 s.key_bytes (len key);
    },
    some e,
  )
]

-- `len(s.items)`
abbrev pub object_count : Store → ℕ
object_count s = length s.items

unfoldable pub free : Store → Int64
free s = sub64 s.capacity s.bytes

-- The entries in one order; the map may be iterated in any other.
abbrev pub entries : Store → List Entry
entries s = map (λ x. x.1) s.items

unfoldable pub clear : Store → Store
clear s = record s { items = []; bytes = 0; key_bytes = 0 }
