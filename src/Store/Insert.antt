-- ===== src/Store/Insert.antt =====
-- Insert of cache/store.go against a description in exact arithmetic.
use adaptive_caching.Base.{
  ℕ, ◌+◌, ◌≤◌, ◌<◌, ◌≡◌, refl, ◌≢◌, sym, ◌∙◌, inl, inr, true, Option, some, none, ite, if_pos,
  if_neg, lookup-AllOf, arith, Key, key_dec, Int64, two63, two64, lt64, ltb, leb, lookup,
  if◌then◌else◌, Bool-cases, Option-cases, lookup-upsert,
}
use adaptive_caching.Types.{Entry, Value, Time}
use adaptive_caching.Store.{
  Store, Result, ok, err, object_too_large, capacity_exceeded, invalid_size, get, projected, write,
  insert, admit,
}
use adaptive_caching.Store.Invariant.{IsValid, others, others-le, projected_lem, write-IsValid}

-- What Insert promises, with sizes and sums that are plain numbers.
unfoldable pub insert_spec : Key → Value → Int64 → Time → Store → Result (Store × Entry)
insert_spec key val size now s =
    if leb two63 size
    then err invalid_size
    else if ltb s.capacity size
    then err object_too_large
    else if leb (others key s + size) s.capacity
    then ok (write key val size now (get key s) s)
    else err capacity_exceeded

lt64_fits : (a b : ℕ) → a < two63 → b < two63 → lt64 a b ≡ ltb a b
lt64_fits a b h k = ground arith

lt64_zero : (a : ℕ) → a < two64 → lt64 a 0 ≡ leb two63 a
lt64_zero a h = ground arith

-- On a store that satisfies the invariant, Insert of a size that is an int64 gives what exact
-- arithmetic asks for: a negative size and a size above the capacity are refused, and of the
-- others exactly those succeed that fit beside the objects under other keys.
pub insert-eq-insert_spec :
    (key : Key) (val : Value) (size : Int64) (now : Time) (s : Store) (v : IsValid s)
    → size < two64
    → insert key val size now s ≡ insert_spec key val size now s
unfolding insert insert_spec
insert-eq-insert_spec key val size now s v h = elim (Bool-cases (leb two63 size)) [
  | inl neg ↦ ground (arith, lt64_zero size h)
  | inr nat ↦ elim (Bool-cases (ltb s.capacity size)) [
    | inl big ↦ ground (arith, lt64_zero size h, lt64_fits s.capacity size, v.small)
    | inr fits ↦ ground (
      arith,
      lt64_zero size h,
      lt64_fits s.capacity size,
      lt64_fits s.capacity (projected (get key s) size s),
      projected_lem key s v size,
      v.small,
      v.within,
      others-le key s v,
    )
  ]
]

-- The write changes one binding, to the entry that it returns.
pub get-write :
    (key j : Key) (val : Value) (size : Int64) (now : Time) (o : Option Entry) (s : Store)
    → get j (write key val size now o s).0
      ≡ ite (key_dec key j) (some (write key val size now o s).1) (get j s)
unfolding get write
get-write key j val size now none s = lookup-upsert key_dec key j _ s.items
get-write key j val size now (some e) s = lookup-upsert key_dec key j _ s.items

-- The entry that Insert returns holds the new value, under its key.
abbrev pub Holds : Key → Value → Int64 → Time → Entry → Type 0
Holds key val size now e =
    (e.key ≡ key) × (e.value ≡ val) × (e.size ≡ size) × (e.last_access_time ≡ now)

write-Holds :
    (key : Key) (val : Value) (size : Int64) (now : Time) (s : Store)
    → IsValid s
    → Holds key val size now (write key val size now (get key s) s).1
unfolding get write
write-Holds key val size now s v = elim (Option-cases (lookup key_dec key s.items)) [
  | inl miss ↦ rw (miss, write) (refl, refl, refl, refl)
  | inr (e, hit) ↦
      rw (hit, write)
        (lookup-AllOf key_dec (λ k x. x.key ≡ k) key e s.items v.keyed hit, refl, refl, refl)
]

pub capacity-write :
    (key : Key) (val : Value) (size : Int64) (now : Time) (o : Option Entry) (s : Store)
    → (write key val size now o s).0.capacity ≡ s.capacity
unfolding write
capacity-write key val size now none s = refl
capacity-write key val size now (some e) s = refl

-- What a successful Insert leaves.
pub record IsInserted (key : Key) (val : Value) (size : Int64) (now : Time) (s : Store) (s' : Store)
    (e : Entry) : Type 0 where
  pub valid : IsValid s'
  pub holds : Holds key val size now e
  pub stored : get key s' ≡ some e
  pub kept : (j : Key) → j ≢ key → get j s' ≡ get j s
  pub capacity_kept : s'.capacity ≡ s.capacity

write-IsInserted :
    (key : Key) (val : Value) (size : Int64) (now : Time) (s : Store)
    → IsValid s
    → others key s + size ≤ s.capacity
    → let w = write key val size now (get key s) s in IsInserted key val size now s w.0 w.1
write-IsInserted key val size now s v fits = record {
  valid = write-IsValid key s v val size now fits;
  holds = write-Holds key val size now s v;
  stored = get-write key key val size now (get key s) s ∙ if_pos (key_dec key key) refl _ _;
  kept = λ j ne.
      get-write key j val size now (get key s) s ∙ if_neg (key_dec key j) (λ p. ne (sym p)) _ _;
  capacity_kept = capacity-write key val size now (get key s) s;
}

-- A successful Insert, of a size that is an int64, into a valid store keeps the store valid,
-- stores the value under the key, and changes nothing under any other key.
pub insert-IsInserted :
    (key : Key) (val : Value) (size : Int64) (now : Time) (s s' : Store) (e : Entry)
    → IsValid s
    → size < two64
    → insert key val size now s ≡ ok (s', e)
    → IsInserted key val size now s s' e
unfolding insert_spec
insert-IsInserted key val size now s s' e v h r =
    let spec : insert_spec key val size now s ≡ ok (s', e) =
      sym (insert-eq-insert_spec key val size now s v h) ∙ r in
    let fits : others key s + size ≤ s.capacity = ground arith in
    let done : write key val size now (get key s) s ≡ (s', e) = ground arith in
    rw done at (write-IsInserted key val size now s v fits)

-- A capacity below 2 ^ 62 is needed: for a new key, where the bytes in use and the size are each
-- within a capacity below 2 ^ 63 but add up to 2 ^ 63 or more, the sum wraps to a negative number,
-- so that Insert admits an object that does not fit, and the store counts a negative number of
-- bytes.
pub insert_wraps :
    (key : Key) (val : Value) (size : Int64) (now : Time) (s : Store)
    → get key s ≡ none
    → s.capacity < two63
    → size ≤ s.capacity
    → s.bytes ≤ s.capacity
    → two63 ≤ s.bytes + size
    → (s' : Store) × (e : Entry) × (insert key val size now s ≡ ok (s', e))
      × (s.capacity < s.bytes + size)
      × (lt64 s'.bytes 0 ≡ true)
unfolding insert projected write
insert_wraps key val size now s miss c fits b big = (
  (admit key val size now s).0,
  (admit key val size now s).1,
  ground arith,
  omega arith,
  ground arith,
)

-- The four ways in which Insert ends, with the condition of each.
pub data Ends (key : Key) (val : Value) (size : Int64) (now : Time) (s : Store) : Type 0 where
  negative : insert key val size now s ≡ err invalid_size → two63 ≤ size → Ends key val size now s
  too_large :
      insert key val size now s ≡ err object_too_large
      → size < two63
      → s.capacity < size
      → Ends key val size now s
  full :
      insert key val size now s ≡ err capacity_exceeded
      → size ≤ s.capacity
      → s.capacity < others key s + size
      → Ends key val size now s
  fitting :
      insert key val size now s ≡ ok (write key val size now (get key s) s)
      → IsInserted key val size now s
          (write key val size now (get key s) s).0
          (write key val size now (get key s) s).1
      → Ends key val size now s

pub insert-Ends :
    (key : Key) (val : Value) (size : Int64) (now : Time) (s : Store)
    → IsValid s
    → size < two64
    → Ends key val size now s
unfolding insert_spec
insert-Ends key val size now s v h =
    let e = insert-eq-insert_spec key val size now s v h in
    elim (Bool-cases (leb two63 size)) [
      | inl neg ↦ negative (e ∙ ground arith) (ground arith)
      | inr nat ↦ elim (Bool-cases (ltb s.capacity size)) [
        | inl big ↦ too_large (e ∙ ground arith) (ground arith) (ground arith)
        | inr small ↦ elim (Bool-cases (leb (others key s + size) s.capacity)) [
          | inl fits ↦
              fitting (e ∙ ground arith) (write-IsInserted key val size now s v (ground arith))
          | inr over ↦ full (e ∙ ground arith) (ground arith) (ground arith)
        ]
      ]
    ]
