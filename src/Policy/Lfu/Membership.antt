-- ===== src/Policy/Lfu/Membership.antt =====
-- The keys of cache/policy/lfu.go come and go: OnInsert, OnRemove, Rebuild and Reset.
use adaptive_caching.Base.{
  ℕ, suc, ◌≤◌, ◌≡◌, refl, sym, ◌∙◌, ap, inl, inr, Option, none, some, ite, arith, Key, key_dec,
  ℕ_discrete, lookup, delete, length, lookup-upsert, lookup-delete, delete-Distinct, Option-cases,
  length-upsert_new, length-delete, sub64, Returns,
}
use adaptive_caching.Types.{Entry}
use adaptive_caching.Policy.LinkedList.{Elements, key_at, remove_element, Distinct-remove_element}
use adaptive_caching.Policy.Lfu.{
  Lfu, Item, settle, max_lfu_freq, attach, add, on_insert, on_remove, next_freq,
  lfu_per_entry_bytes,
}
use adaptive_caching.Policy.Lfu.Buckets.{
  at, at-settle, settle-IsSound, bucket_of-some, IsFull, settle-IsFull,
}
use adaptive_caching.Policy.Lfu.Invariant.{
  IsIndexed, IsCounted, IsValid, IsWithout, taken-IsWithout,
}
use adaptive_caching.Policy.Lfu.Moves.{
  freq_of, find_node, attach-IsFull, increment-IsMoved, noted, noted-IsIndexed, noted-IsFull,
  add-IsIndexed,
}

-- The frequency of a key that is inserted.
abbrev pub inserted_freq : Option ℕ → ℕ
inserted_freq none = 1
inserted_freq (some f) = next_freq f

-- A new key, at a frequency.
module _ (p : Lfu) (v : IsValid p) (key : Key) (e : Entry) (f : ℕ)
    (miss : lookup key_dec key p.items ≡ none) (low : 1 ≤ f) (high : f ≤ max_lfu_freq) where
  size-add : length (add key e f p).items ≡ suc (length p.items)
  unfolding add attach
  size-add = length-upsert_new key_dec key (record { el = p.next; freq = f }) p.items miss

  add-IsCounted : IsCounted (add key e f p)
  unfolding add
  add-IsCounted = record {
    counted = omega (arith, v.exact.counted, size-add);
    accounted = omega (arith, v.exact.accounted, size-add);
  }

  add-IsFull : IsFull (add key e f p).buckets
  unfolding add
  add-IsFull = attach-IsFull key f (record { key = key; e = e.addr }) p.buckets p v.full

  pub add-IsValid : IsValid (add key e f p)
  add-IsValid = record {
    indexed = add-IsIndexed p v.indexed key e f miss low high;
    full = add-IsFull;
    exact = add-IsCounted;
  }

  pub freq_of-add :
      (k : Key) → freq_of (add key e f p) k ≡ ite (key_dec key k) (some f) (freq_of p k)
  unfolding add attach
  freq_of-add k =
      ground (arith, lookup-upsert key_dec key k (record { el = p.next; freq = f }) p.items)

-- OnInsert on a valid LFU returns and keeps it valid. A new key gets frequency 1, a known one the
-- next frequency; every other key keeps its frequency.
pub on_insert-IsValid :
    (key : Key) (e : Entry) (p : Lfu)
    → IsValid p
    → Returns (on_insert key e p) (λ p'.
      IsValid p'
      × ((k : Key)
          → freq_of p' k
            ≡ ite (key_dec key k) (some (inserted_freq (freq_of p key))) (freq_of p k)))
unfolding on_insert
on_insert-IsValid key e p v = elim (Option-cases (lookup key_dec key p.items)) [
  | inl miss ↦ (
    add key e 1 p,
    rw (miss, on_insert) refl,
    (
      add-IsValid p v key e 1 miss (omega arith) (omega arith),
      λ k. ground (arith, freq_of-add p v key e 1 miss (omega arith) (omega arith) k),
    ),
  )
  | inr (it, hit) ↦
      let (l, node, here, there, same) = find_node p v.indexed key it hit in
      let p₁ = noted p v.indexed it.freq it.el e.addr l here in
      let (r, ran, (m, full)) =
        increment-IsMoved p₁ (noted-IsIndexed p v.indexed it.freq it.el e.addr l here) key it hit in
      (
        r,
        ground (arith, ran),
        (
          record {
            indexed = m.indexed;
            full = full (noted-IsFull p v.indexed it.freq it.el e.addr l here v.full);
            exact = m.exact (record { counted = v.exact.counted; accounted = v.exact.accounted });
          },
          λ k. ground (arith, m.freqs k),
        ),
      )
]

abbrev dropped : Key → Item → Elements → Lfu → Lfu
dropped key it l p = record p {
  buckets = settle it.freq (remove_element it.el l) p.buckets;
  items = delete key_dec key p.items;
  n = sub64 p.n 1;
  metadata = sub64 p.metadata lfu_per_entry_bytes;
}

on_remove_absent : (key : Key) (p : Lfu) → lookup key_dec key p.items ≡ none → on_remove key p ≡ p
unfolding on_remove
on_remove_absent key p miss = ground arith

on_remove_present :
    (key : Key) (p : Lfu) (it : Item) (l : Elements)
    → lookup key_dec key p.items ≡ some it
    → lookup ℕ_discrete it.freq p.buckets ≡ some l
    → on_remove key p ≡ dropped key it l p
unfolding on_remove
on_remove_present key p it l hit here = ground arith

module _ (p : Lfu) (v : IsValid p) (key : Key) (it : Item)
    (hit : lookup key_dec key p.items ≡ some it) (l : Elements)
    (here : lookup ℕ_discrete it.freq p.buckets ≡ some l) where
  -- The buckets without the element of the key.
  pub without : IsWithout key (settle it.freq (remove_element it.el l) p.buckets) p.buckets
  without =
      let range = v.indexed.sound.range it.freq l here in
      taken-IsWithout p v.indexed key it hit (settle it.freq (remove_element it.el l) p.buckets)
        (settle-IsSound it.freq (remove_element it.el l) p.buckets v.indexed.sound
          (Distinct-remove_element it.el l (v.indexed.sound.elements it.freq l here)) range.0
          range.1)
        (λ g e.
          at-settle it.freq g e (remove_element it.el l) p.buckets
          ∙ ap
              (λ (m : Elements).
                ite (ℕ_discrete it.freq g) (key_at e (remove_element it.el m)) (at g e p.buckets))
              (sym (bucket_of-some it.freq l p.buckets here)))

  size-dropped : suc (length (delete key_dec key p.items)) ≡ length p.items
  size-dropped = length-delete key_dec key it p.items v.indexed.keyed hit

  items-dropped :
      (k : Key)
      → lookup key_dec k (delete key_dec key p.items)
        ≡ ite (key_dec key k) none (lookup key_dec k p.items)
  items-dropped k = lookup-delete key_dec key k p.items

  dropped-IsIndexed : IsIndexed (dropped key it l p)
  dropped-IsIndexed = record {
    sound = without.sound;
    keyed = delete-Distinct key_dec key p.items v.indexed.keyed;
    forth = λ k i h. elim (key_dec key k) [
      | yes e ↦ absurd (ground (arith, items-dropped k))
      | no e ↦
          without.kept i.freq i.el k (v.indexed.forth k i (ground (arith, items-dropped k)))
            (λ q. e (sym q))
    ];
    back = λ k g e h.
        let (old, other) = without.out g e k h in
        ground (arith, items-dropped k, v.indexed.back k g e old);
    fresh = λ g e k h. v.indexed.fresh g e k (without.out g e k h).0;
  }

  dropped-IsValid :
      IsValid (dropped key it l p)
      × ((k : Key) → freq_of (dropped key it l p) k ≡ ite (key_dec key k) none (freq_of p k))
  dropped-IsValid = (
    record {
      indexed = dropped-IsIndexed;
      full = settle-IsFull it.freq (remove_element it.el l) p.buckets v.full;
      exact = record {
        counted = omega (arith, v.exact.counted, size-dropped);
        accounted = omega (arith, v.exact.accounted, size-dropped);
      };
    },
    λ k. ground (arith, items-dropped k),
  )

-- OnRemove of a valid LFU keeps it valid, and drops the key alone.
pub on_remove-IsValid :
    (key : Key) (p : Lfu)
    → IsValid p
    → IsValid (on_remove key p)
      × ((k : Key) → freq_of (on_remove key p) k ≡ ite (key_dec key k) none (freq_of p k))
on_remove-IsValid key p v = elim (Option-cases (lookup key_dec key p.items)) [
  | inl miss ↦ rw (on_remove_absent key p miss) (v, λ k. ground arith)
  | inr (it, hit) ↦
      let (l, node, here, there, same) = find_node p v.indexed key it hit in
      rw (on_remove_present key p it l hit here) (dropped-IsValid p v key it hit l here)
]
