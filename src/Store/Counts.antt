-- ===== src/Store/Counts.antt =====
-- The number of objects in the store of cache/store.go.
use adaptive_caching.Base.{
  lt64, suc, ◌≤◌, ◌<◌, ◌≡◌, refl, sym, ◌∙◌, inl, inr, Bool, true, false, Option, none, some, arith,
  Key, key_dec, Int64, lookup, length-upsert_old, length-upsert_le, length-delete_le, Option-cases,
  if◌then◌else◌,
}
use adaptive_caching.Types.{Entry, Value, Time}
use adaptive_caching.Store.{
  Store, Error, Result, ok, err, invalid_size, object_too_large, capacity_exceeded, get, touch,
  write, insert, projected, remove, accessed, object_count,
}
use adaptive_caching.Store.Invariant.{IsValid}
use adaptive_caching.Store.Contents.{remove-get, object_count-remove}

pub object_count-touch :
    (key : Key) (now : Time) (s : Store) → object_count (touch key now s).0 ≡ object_count s
unfolding touch
object_count-touch key now s = elim (Option-cases (lookup key_dec key s.items)) [
  | inl miss ↦ rw (miss, touch) refl
  | inr (e, hit) ↦ rw (hit, touch) (length-upsert_old key_dec key (accessed now e) e s.items hit)
]

object_count-write :
    (key : Key) (val : Value) (size : Int64) (now : Time) (o : Option Entry) (s : Store)
    → object_count (write key val size now o s).0 ≤ suc (object_count s)
unfolding write
object_count-write key val size now none s = length-upsert_le key_dec key _ s.items
object_count-write key val size now (some e) s = length-upsert_le key_dec key _ s.items

-- An insert adds one object at most.
abbrev pub AddsOne : Store → Result (Store × Entry) → Type 0
AddsOne s (ok (s', e)) = object_count s' ≤ suc (object_count s)
AddsOne s (err e) = Unit

guarded :
    (s : Store) (b : Bool) (e : Error) (r : Result (Store × Entry))
    → AddsOne s r
    → AddsOne s (if b then err e else r)
guarded s true e r h = tt
guarded s false e r h = h

pub insert-AddsOne :
    (key : Key) (val : Value) (size : Int64) (now : Time) (s : Store)
    → AddsOne s (insert key val size now s)
unfolding insert
insert-AddsOne key val size now s =
    let written : Result (Store × Entry) = ok (write key val size now (get key s) s) in
    let full = lt64 s.capacity (projected (get key s) size s) in
    let fits : Result (Store × Entry) = if full then err capacity_exceeded else written in
    let large = lt64 s.capacity size in
    let allowed : Result (Store × Entry) = if large then err object_too_large else fits in
    guarded s (lt64 size 0) invalid_size allowed (
      guarded s large object_too_large fits (
        guarded s full capacity_exceeded written
          (object_count-write key val size now (get key s) s)))

pub object_count-remove_le :
    (key : Key) (s : Store) → object_count (remove key s).0 ≤ object_count s
unfolding remove
object_count-remove_le key s = elim (Option-cases (lookup key_dec key s.items)) [
  | inl miss ↦ rw (miss, remove) (omega arith)
  | inr (e, hit) ↦ rw (hit, remove) (length-delete_le key_dec key s.items)
]

-- What is removed is one object less.
pub object_count-removed :
    (key : Key) (e : Entry) (s : Store)
    → (remove key s).1 ≡ some e
    → IsValid s
    → object_count (remove key s).0 < object_count s
object_count-removed key e s h v =
    omega (arith, object_count-remove key e s v (sym (remove-get key s) ∙ h))
