-- ===== src/Store/Contents.antt =====
-- The keys that are resident in the store of cache/store.go.
use adaptive_caching.Base.{
  suc, ◌≡◌, refl, inl, inr, true, false, List, [], ◌∷◌, Option, none, some, ite, arith, Key,
  key_dec, Int64, lookup, lookup-upsert, lookup-delete, AllOf, upsert-AllOf, delete-AllOf,
  length-delete, lookup-AllOf, is_some, Option-cases,
}
use adaptive_caching.Types.{Entry, Value, Time}
use adaptive_caching.Store.{
  Store, contains, get, touch, write, remove, clear, accessed, object_count,
}
use adaptive_caching.Store.Insert.{get-write}
use adaptive_caching.Store.Invariant.{IsValid}

pub contains-get : (key : Key) (s : Store) → contains key s ≡ is_some (get key s)
unfolding contains get
contains-get key s = refl

pub contains-touch :
    (key j : Key) (now : Time) (s : Store) → contains j (touch key now s).0 ≡ contains j s
unfolding contains touch
contains-touch key j now s = elim (Option-cases (lookup key_dec key s.items)) [
  | inl miss ↦ rw (miss, touch) refl
  | inr (e, hit) ↦
      rw (hit, touch) (ground (arith, lookup-upsert key_dec key j (accessed now e) s.items))
]

pub contains-write :
    (key j : Key) (val : Value) (size : Int64) (now : Time) (o : Option Entry) (s : Store)
    → contains j (write key val size now o s).0 ≡ ite (key_dec key j) true (contains j s)
unfolding contains get
contains-write key j val size now o s = ground (arith, get-write key j val size now o s)

pub get-remove :
    (key j : Key) (s : Store) → get j (remove key s).0 ≡ ite (key_dec key j) none (get j s)
unfolding get remove
get-remove key j s = elim (Option-cases (lookup key_dec key s.items)) [
  | inl miss ↦ rw (miss, remove) (ground arith)
  | inr (e, hit) ↦ rw (hit, remove) (lookup-delete key_dec key j s.items)
]

pub contains-remove :
    (key j : Key) (s : Store)
    → contains j (remove key s).0 ≡ ite (key_dec key j) false (contains j s)
unfolding contains get
contains-remove key j s = ground (arith, get-remove key j s)

pub contains-clear : (j : Key) (s : Store) → contains j (clear s) ≡ false
unfolding contains clear lookup
contains-clear j s = refl

-- Remove returns what Get would, and takes one object away if there is one.
pub remove-get : (key : Key) (s : Store) → (remove key s).1 ≡ get key s
unfolding get remove
remove-get key s = elim (Option-cases (lookup key_dec key s.items)) [
  | inl miss ↦ rw (miss, remove) refl
  | inr (e, hit) ↦ rw (hit, remove) refl
]

pub object_count-remove :
    (key : Key) (e : Entry) (s : Store)
    → IsValid s
    → get key s ≡ some e
    → suc (object_count (remove key s).0) ≡ object_count s
unfolding get remove
object_count-remove key e s v h = rw (h, remove) (length-delete key_dec key e s.items v.distinct h)

pub capacity-remove : (key : Key) (s : Store) → (remove key s).0.capacity ≡ s.capacity
unfolding remove
capacity-remove key s = elim (Option-cases (lookup key_dec key s.items)) [
  | inl miss ↦ rw (miss, remove) refl
  | inr (e, hit) ↦ rw (hit, remove) refl
]

-- A store in which no key is resident is empty.
pub empty_of_contains : (s : Store) → ((j : Key) → contains j s ≡ false) → s.items ≡ []
unfolding contains lookup
empty_of_contains s h = go s.items h
  where
    go : (l : List (Key × Entry)) → ((j : Key) → is_some (lookup key_dec j l) ≡ false) → l ≡ []
    go [] h' = refl
    go ((k, e) ∷ l) h' = absurd (ground (arith, h' k))

-- A predicate of the keys that holds of all resident keys.
abbrev pub Resident : (Key → Type 0) → Store → Type 0
Resident P s = AllOf key_dec (λ k e. P k) s.items

module _ (P : Key → Type 0) (key : Key) (s : Store) (all : Resident P s) where
  pub Resident-touch : (now : Time) → Resident P (touch key now s).0
  unfolding touch
  Resident-touch now = elim (Option-cases (lookup key_dec key s.items)) [
    | inl miss ↦ rw (miss, touch) all
    | inr (e, hit) ↦
        rw (hit, touch)
          (upsert-AllOf key_dec (λ k x. P k) key (accessed now e) s.items all
            (lookup-AllOf key_dec (λ k x. P k) key e s.items all hit))
  ]

  pub Resident-write :
      (val : Value) (size : Int64) (now : Time) (o : Option Entry)
      → P key
      → Resident P (write key val size now o s).0
  unfolding write
  Resident-write val size now none h = upsert-AllOf key_dec (λ k x. P k) key _ s.items all h
  Resident-write val size now (some e) h = upsert-AllOf key_dec (λ k x. P k) key _ s.items all h

  pub Resident-remove : Resident P (remove key s).0
  unfolding remove
  Resident-remove = elim (Option-cases (lookup key_dec key s.items)) [
    | inl miss ↦ rw (miss, remove) all
    | inr (e, hit) ↦ rw (hit, remove) (delete-AllOf key_dec (λ k x. P k) key s.items all)
  ]

-- An access changes nothing of an entry but its time and its count.
pub touch-get :
    (key : Key) (now : Time) (s : Store)
    → (touch key now s).1 ≡ elim (get key s) [ none ↦ none | some e ↦ some (accessed now e) ]
unfolding get touch
touch-get key now s = elim (Option-cases (lookup key_dec key s.items)) [
  | inl miss ↦ rw (miss, touch) refl
  | inr (e, hit) ↦ rw (hit, touch) refl
]
