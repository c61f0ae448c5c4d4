-- ===== src/Store/Invariant.antt =====
-- The invariant of the store of cache/store.go.
use Prim.Native.String.{len}
use adaptive_caching.Base.{
  ℕ, ◌+◌, ◌%◌, ◌^◌, ◌≤◌, ◌<◌, ◌≡◌, refl, ap, inl, inr, List, none, some, arith, Key, key_dec, Int64,
  two64, lookup, upsert, delete, Distinct, upsert-Distinct, delete-Distinct, delete_absent, sum_by,
  sum_by-upsert_new, sum_by-upsert_old, sum_by-delete, AllOf, upsert-AllOf, delete-AllOf,
  lookup-AllOf, Option-cases,
}
use adaptive_caching.Types.{Entry, Value, Time}
use adaptive_caching.Store.{
  Store, new_store, accessed, get, touch, projected, replace, admit, write, remove, clear,
}

-- The bytes of the resident objects, as a number that does not wrap.
abbrev pub payload : List (Key × Entry) → ℕ
payload = sum_by key_dec (λ k e. e.size)

abbrev pub key_lengths : List (Key × Entry) → ℕ
key_lengths = sum_by key_dec (λ k e. len k)

abbrev pub IsKeyed : List (Key × Entry) → Type 0
IsKeyed = AllOf key_dec (λ k e. e.key ≡ k)

-- The counters are exact and the objects fit. The bound on the capacity (4 EiB) keeps the sum of
-- a size and the bytes in use from wrapping.
pub record IsValid (s : Store) : Type 0 where
  pub distinct : Distinct key_dec s.items
  pub keyed : IsKeyed s.items
  pub exact : s.bytes ≡ payload s.items
  pub keys_exact : s.key_bytes ≡ key_lengths s.items % two64
  pub within : payload s.items ≤ s.capacity
  pub small : s.capacity < 2 ^ 62

pub new_store-IsValid : (capacity : Int64) → capacity < 2 ^ 62 → IsValid (new_store capacity)
unfolding new_store
new_store-IsValid capacity h = record {
  distinct = tt;
  keyed = tt;
  exact = refl;
  keys_exact = refl;
  within = omega arith;
  small = h;
}

pub clear-IsValid : (s : Store) → IsValid s → IsValid (clear s)
unfolding clear
clear-IsValid s v = record {
  distinct = tt;
  keyed = tt;
  exact = refl;
  keys_exact = refl;
  within = omega arith;
  small = v.small;
}

-- The bytes of the objects under other keys.
abbrev pub others : Key → Store → ℕ
others key s = payload (delete key_dec key s.items)

module _ (key : Key) (s : Store) (v : IsValid s) where
  -- A resident object is no larger than what is in use.
  pub size-le-payload : (e : Entry) → lookup key_dec key s.items ≡ some e → e.size ≤ payload s.items
  size-le-payload e h =
      omega (arith, sum_by-delete key_dec (λ k x. x.size) key e s.items v.distinct h)

  touch_hit :
      (now : Time) (e : Entry)
      → lookup key_dec key s.items ≡ some e
      → IsValid (record s { items = upsert key_dec key (accessed now e) s.items })
  touch_hit now e h = record {
    distinct = upsert-Distinct key_dec key (accessed now e) s.items v.distinct;
    keyed =
        upsert-AllOf key_dec (λ k x. x.key ≡ k) key (accessed now e) s.items v.keyed
          (lookup-AllOf key_dec (λ k x. x.key ≡ k) key e s.items v.keyed h);
    exact = omega (arith, same, v.exact);
    keys_exact = rw v.keys_exact (ap (λ n. n % two64) (omega (arith, same_keys)));
    within = omega (arith, same, v.within);
    small = v.small;
  }
    where
      same :
          payload (upsert key_dec key (accessed now e) s.items) + e.size ≡ e.size + payload s.items
      same = sum_by-upsert_old key_dec (λ k x. x.size) key (accessed now e) e s.items h

      same_keys :
          key_lengths (upsert key_dec key (accessed now e) s.items) + len key
          ≡ len key + key_lengths s.items
      same_keys = sum_by-upsert_old key_dec (λ k x. len k) key (accessed now e) e s.items h

  pub touch-IsValid : (now : Time) → IsValid (touch key now s).0
  unfolding touch
  touch-IsValid now = elim (Option-cases (lookup key_dec key s.items)) [
    | inl miss ↦ rw (miss, touch) v
    | inr (e, hit) ↦ rw (hit, touch) (touch_hit now e hit)
  ]

  remove_hit : (e : Entry) → lookup key_dec key s.items ≡ some e → IsValid (remove key s).0
  unfolding remove
  remove_hit e h =
      rw (h, remove)
        (record {
          distinct = delete-Distinct key_dec key s.items v.distinct;
          keyed = delete-AllOf key_dec (λ k x. x.key ≡ k) key s.items v.keyed;
          exact = omega (arith, less, v.exact, v.within, v.small);
          keys_exact = omega (arith, less_keys, v.keys_exact);
          within = omega (arith, less, v.within);
          small = v.small;
        })
    where
      less : e.size + payload (delete key_dec key s.items) ≡ payload s.items
      less = sum_by-delete key_dec (λ k x. x.size) key e s.items v.distinct h

      less_keys : len key + key_lengths (delete key_dec key s.items) ≡ key_lengths s.items
      less_keys = sum_by-delete key_dec (λ k x. len k) key e s.items v.distinct h

  pub remove-IsValid : IsValid (remove key s).0
  unfolding remove
  remove-IsValid = elim (Option-cases (lookup key_dec key s.items)) [
    | inl miss ↦ rw (miss, remove) v
    | inr (e, hit) ↦ remove_hit e hit
  ]

  admit-IsValid :
      (val : Value) (size : Int64) (now : Time)
      → lookup key_dec key s.items ≡ none
      → payload s.items + size ≤ s.capacity
      → IsValid (admit key val size now s).0
  unfolding admit
  admit-IsValid val size now h fits = record {
    distinct = upsert-Distinct key_dec key e s.items v.distinct;
    keyed = upsert-AllOf key_dec (λ k x. x.key ≡ k) key e s.items v.keyed refl;
    exact = omega (arith, more, fits, v.exact, v.small);
    keys_exact = omega (arith, more_keys, v.keys_exact);
    within = omega (arith, more, fits);
    small = v.small;
  }
    where
      e : Entry
      e = (admit key val size now s).1

      more : payload (upsert key_dec key e s.items) ≡ size + payload s.items
      more = sum_by-upsert_new key_dec (λ k x. x.size) key e s.items h

      more_keys : key_lengths (upsert key_dec key e s.items) ≡ len key + key_lengths s.items
      more_keys = sum_by-upsert_new key_dec (λ k x. len k) key e s.items h

  replace-IsValid :
      (val : Value) (size : Int64) (now : Time) (old : Entry)
      → lookup key_dec key s.items ≡ some old
      → payload s.items + size ≤ s.capacity + old.size
      → IsValid (replace key val size now old s).0
  unfolding replace
  replace-IsValid val size now old h fits = record {
    distinct = upsert-Distinct key_dec key e s.items v.distinct;
    keyed =
        upsert-AllOf key_dec (λ k x. x.key ≡ k) key e s.items v.keyed
          (lookup-AllOf key_dec (λ k x. x.key ≡ k) key old s.items v.keyed h);
    exact = omega (arith, size-le-payload old h, more, fits, v.exact, v.within, v.small);
    keys_exact = rw v.keys_exact (ap (λ n. n % two64) (omega (arith, same_keys)));
    within = omega (arith, more, fits);
    small = v.small;
  }
    where
      e : Entry
      e = (replace key val size now old s).1

      more : payload (upsert key_dec key e s.items) + old.size ≡ size + payload s.items
      more = sum_by-upsert_old key_dec (λ k x. x.size) key e old s.items h

      same_keys :
          key_lengths (upsert key_dec key e s.items) + len key ≡ len key + key_lengths s.items
      same_keys = sum_by-upsert_old key_dec (λ k x. len k) key e old s.items h

  pub others-le : others key s ≤ payload s.items
  others-le = elim (Option-cases (lookup key_dec key s.items)) [
    | inl miss ↦ omega (arith, ap payload (delete_absent key_dec key s.items miss))
    | inr (e, hit) ↦
        omega (arith, sum_by-delete key_dec (λ k x. x.size) key e s.items v.distinct hit)
  ]

  pub projected_lem :
      (size : Int64) → size ≤ s.capacity → projected (get key s) size s ≡ others key s + size
  unfolding get projected
  projected_lem size h = elim (Option-cases (lookup key_dec key s.items)) [
    | inl miss ↦
        rw (miss, projected)
          (omega (
            arith,
            v.exact,
            v.within,
            v.small,
            ap payload (delete_absent key_dec key s.items miss),
          ))
    | inr (e, hit) ↦
        rw (hit, projected)
          (omega (
            arith,
            v.exact,
            v.within,
            v.small,
            sum_by-delete key_dec (λ k x. x.size) key e s.items v.distinct hit,
          ))
  ]

  pub write-IsValid :
      (val : Value) (size : Int64) (now : Time)
      → others key s + size ≤ s.capacity
      → IsValid (write key val size now (get key s) s).0
  unfolding get write
  write-IsValid val size now fits = elim (Option-cases (lookup key_dec key s.items)) [
    | inl miss ↦
        rw (miss, write)
          (admit-IsValid val size now miss
            (omega (arith, fits, ap payload (delete_absent key_dec key s.items miss))))
    | inr (e, hit) ↦
        rw (hit, write)
          (replace-IsValid val size now e hit (
            omega
              (arith, fits, sum_by-delete key_dec (λ k x. x.size) key e s.items v.distinct hit)))
  ]
