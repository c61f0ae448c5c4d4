-- ===== src/Policy/Lru/Invariant.antt =====
-- The invariant of the LRU policy, cache/policy/lru.go.
use adaptive_caching.Base.{
  ℕ, ◌*◌, ◌%◌, ◌<◌, ◌≡◌, refl, inl, inr, none, some, arith, Key, key_dec, ℕ_discrete, two64, lookup,
  lookup-upsert, lookup-delete, Distinct, length, Option-cases,
}
use adaptive_caching.Types.{Entry}
use adaptive_caching.Policy.LinkedList.{
  Node, key_at, key_at-push_front, key_at-remove_element, key_at-move_to_front, key_at-set_entry,
  Distinct-push_front, Distinct-move_to_front, Distinct-set_entry, Distinct-remove_element,
  length-move_to_front, length-set_entry, length-remove_element,
}
use adaptive_caching.Policy.Lru.{Lru, on_access, on_insert, on_remove, add_front, reset}

-- The addresses of the list are different and allocated; the index holds exactly the places of the
-- list's keys; the two counters are exact.
pub record IsValid (p : Lru) : Type 0 where
  pub distinct : Distinct ℕ_discrete p.ll
  pub fresh : (i : ℕ) (k : Key) → key_at i p.ll ≡ some k → i < p.next
  pub forth : (k : Key) (i : ℕ) → lookup key_dec k p.items ≡ some i → key_at i p.ll ≡ some k
  pub back : (k : Key) (i : ℕ) → key_at i p.ll ≡ some k → lookup key_dec k p.items ≡ some i
  pub counted : p.n ≡ length p.ll % two64
  pub accounted : p.metadata ≡ 64 * length p.ll % two64

pub reset-IsValid : (p : Lru) → IsValid (reset p)
unfolding reset lookup
reset-IsValid p = record {
  distinct = tt;
  fresh = λ i k h. absurd (ground arith);
  forth = λ k i h. absurd (ground arith);
  back = λ k i h. absurd (ground arith);
  counted = refl;
  accounted = refl;
}

module _ (key : Key) (p : Lru) (v : IsValid p) where
  pub on_access-IsValid : IsValid (on_access key p)
  unfolding on_access
  on_access-IsValid = elim (Option-cases (lookup key_dec key p.items)) [
    | inl miss ↦ rw (miss, on_access) v
    | inr (el, hit) ↦
        rw (hit, on_access)
          (record {
            distinct = Distinct-move_to_front el p.ll v.distinct;
            fresh = λ i k h. v.fresh i k (rw key_at-move_to_front at h);
            forth = λ k i h. rw key_at-move_to_front (v.forth k i h);
            back = λ k i h. v.back k i (rw key_at-move_to_front at h);
            counted = rw (length-move_to_front el p.ll v.distinct) v.counted;
            accounted = rw (length-move_to_front el p.ll v.distinct) v.accounted;
          })
  ]

  pub add_front-IsValid :
      (e : Entry) → lookup key_dec key p.items ≡ none → IsValid (add_front key e p)
  unfolding add_front
  add_front-IsValid e miss = record {
    distinct = Distinct-push_front p.next node p.ll v.distinct unused;
    fresh = λ i k h. ground (arith, key_at-push_front p.next i node p.ll, v.fresh i k);
    forth = λ k i h. ground (
      arith,
      key_at-push_front p.next i node p.ll,
      lookup-upsert key_dec key k p.next p.items,
      v.forth k i,
      v.fresh i k,
    );
    back = λ k i h. ground (
      arith,
      key_at-push_front p.next i node p.ll,
      lookup-upsert key_dec key k p.next p.items,
      v.back k i,
    );
    counted = omega (arith, v.counted);
    accounted = omega (arith, v.accounted);
  }
    where
      node : Node
      node = record { key = key; e = e.addr }

      unused : key_at p.next p.ll ≡ none
      unused = elim (Option-cases (key_at p.next p.ll)) [
        | inl e ↦ e
        | inr (k, e) ↦ absurd (omega (arith, v.fresh p.next k e))
      ]

  pub on_insert-IsValid : (e : Entry) → IsValid (on_insert key e p)
  unfolding on_insert
  on_insert-IsValid e = elim (Option-cases (lookup key_dec key p.items)) [
    | inl miss ↦ rw (miss, on_insert) (add_front-IsValid e miss)
    | inr (el, hit) ↦
        rw (hit, on_insert)
          (record {
            distinct = Distinct-set_entry el e.addr p.ll v.distinct;
            fresh = λ i k h. v.fresh i k (rw key_at-set_entry at h);
            forth = λ k i h. rw key_at-set_entry (v.forth k i h);
            back = λ k i h. v.back k i (rw key_at-set_entry at h);
            counted = rw (length-set_entry el e.addr p.ll) v.counted;
            accounted = rw (length-set_entry el e.addr p.ll) v.accounted;
          })
  ]

  pub on_remove-IsValid : IsValid (on_remove key p)
  unfolding on_remove
  on_remove-IsValid = elim (Option-cases (lookup key_dec key p.items)) [
    | inl miss ↦ rw (miss, on_remove) v
    | inr (el, hit) ↦
        let shorter = length-remove_element el key p.ll v.distinct (v.forth key el hit) in
        rw (hit, on_remove)
          (record {
            distinct = Distinct-remove_element el p.ll v.distinct;
            fresh = λ i k h. ground (arith, key_at-remove_element el i p.ll, v.fresh i k);
            forth = λ k i h. ground (
              arith,
              key_at-remove_element el i p.ll,
              lookup-delete key_dec key k p.items,
              v.forth k i,
              v.forth key el hit,
            );
            back = λ k i h. ground (
              arith,
              key_at-remove_element el i p.ll,
              lookup-delete key_dec key k p.items,
              v.back k i,
              v.forth key el hit,
            );
            counted = omega (arith, shorter, v.counted);
            accounted = omega (arith, shorter, v.accounted);
          })
  ]
