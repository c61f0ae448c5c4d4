-- ===== src/Policy/Lfu/Invariant.antt =====
-- The invariant of the LFU policy, cache/policy/lfu.go, and how an element is moved.
use adaptive_caching.Base.{
  ℕ, suc, ◌*◌, ◌%◌, ◌<◌, ◌≤◌, ◌≡◌, ◌≢◌, ◌⊎◌, refl, sym, inl, inr, none, some, ite, arith, Key,
  key_dec, ℕ_discrete, two64, lookup, Distinct, length, lookup-upsert, upsert-Distinct,
  Option-cases,
}
use adaptive_caching.Floats.{Float64}
use adaptive_caching.Policy.LinkedList.{
  Node, key_at, push_front, remove_element, key_at-push_front, key_at-remove_element,
  Distinct-push_front,
}
use adaptive_caching.Policy.Lfu.{Lfu, Item, Buckets, bucket_of, max_lfu_freq, attach}
use adaptive_caching.Policy.Lfu.Buckets.{
  at, at-upsert, IsSound, upsert-IsSound, bucket_of-Distinct, IsFull,
}

-- The buckets without the elements of a key.
pub record IsWithout (key : Key) (bs' bs : Buckets) : Type 0 where
  pub sound : IsSound bs'
  pub kept : (f e : ℕ) (k : Key) → at f e bs ≡ some k → k ≢ key → at f e bs' ≡ some k
  pub out : (f e : ℕ) (k : Key) → at f e bs' ≡ some k → (at f e bs ≡ some k) × (k ≢ key)

-- The items say where the elements are, and every element belongs to an item.
pub record IsIndexed (p : Lfu) : Type 0 where
  pub sound : IsSound p.buckets
  pub keyed : Distinct key_dec p.items
  pub forth :
      (k : Key) (it : Item)
      → lookup key_dec k p.items ≡ some it
      → at it.freq it.el p.buckets ≡ some k
  pub back :
      (k : Key) (f e : ℕ)
      → at f e p.buckets ≡ some k
      → lookup key_dec k p.items ≡ some (record { el = e; freq = f })
  pub fresh : (f e : ℕ) (k : Key) → at f e p.buckets ≡ some k → e < p.next

-- The counters are exact.
pub record IsCounted (p : Lfu) : Type 0 where
  pub counted : p.n ≡ length p.items % two64
  pub accounted : p.metadata ≡ 64 * length p.items % two64

pub record IsValid (p : Lfu) : Type 0 where
  pub indexed : IsIndexed p
  pub full : IsFull p.buckets
  pub exact : IsCounted p

module _ (p : Lfu) (v : IsIndexed p) where
  -- The next element's address is in no bucket.
  pub unused : (f : ℕ) → at f p.next p.buckets ≡ none
  unused f = elim (Option-cases (at f p.next p.buckets)) [
    | inl e ↦ e
    | inr (k, e) ↦ absurd (omega (arith, v.fresh f p.next k e))
  ]

  pub absent-IsWithout :
      (key : Key) → lookup key_dec key p.items ≡ none → IsWithout key p.buckets p.buckets
  absent-IsWithout key miss = record {
    sound = v.sound;
    kept = λ f e k h n. h;
    out = λ f e k h. (h, λ same. ground (arith, v.back k f e h, same));
  }

  -- To take the element of a key out of its bucket leaves the buckets without the key.
  module _ (key : Key) (it : Item) (hit : lookup key_dec key p.items ≡ some it) where
    pub taken-IsWithout :
        (bs' : Buckets)
        → IsSound bs'
        → ((f e : ℕ)
            → at f e bs'
              ≡ ite
                  (ℕ_discrete it.freq f)
                  (key_at e (remove_element it.el (bucket_of it.freq p.buckets)))
                  (at f e p.buckets))
        → IsWithout key bs' p.buckets
    taken-IsWithout bs' sound there = record {
      sound = sound;
      kept = λ f e k h n. ground (
        arith,
        there f e,
        key_at-remove_element it.el e (bucket_of it.freq p.buckets),
        v.forth key it hit,
      );
      out = λ f e k h.
          let old : at f e p.buckets ≡ some k =
            ground
              (arith, there f e, key_at-remove_element it.el e (bucket_of it.freq p.buckets)) in
          (
            old,
            λ same. ground (
              arith,
              there f e,
              key_at-remove_element it.el e (bucket_of it.freq p.buckets),
              v.back k f e old,
              same,
            ),
          );
    }

-- A new element for a key, in buckets without the key, makes the index whole again.
module _ (p : Lfu) (v : IsIndexed p) (node : Node) (bs : Buckets)
    (w : IsWithout node.key bs p.buckets) (f : ℕ) (low : 1 ≤ f) (high : f ≤ max_lfu_freq) where
  abbrev placed : Item
  placed = record { el = p.next; freq = f }

  at-attach :
      (g e : ℕ)
      → at g e (attach node.key f node bs p).buckets
        ≡ ite (ℕ_discrete f g) (ite (ℕ_discrete p.next e) (some node.key) (at f e bs)) (at g e bs)
  unfolding attach
  at-attach g e = ground (
    arith,
    at-upsert f g e (push_front p.next node (bucket_of f bs)) bs,
    key_at-push_front p.next e node (bucket_of f bs),
  )

  empty_there : (g : ℕ) → at g p.next bs ≡ none
  empty_there g = elim (Option-cases (at g p.next bs)) [
    | inl e ↦ e
    | inr (k, e) ↦ absurd (omega (arith, v.fresh g p.next k (w.out g p.next k e).0))
  ]

  attach-IsSound : IsSound (attach node.key f node bs p).buckets
  unfolding attach
  attach-IsSound =
      upsert-IsSound f (push_front p.next node (bucket_of f bs)) bs w.sound
        (Distinct-push_front p.next node (bucket_of f bs) (bucket_of-Distinct f bs w.sound)
          (empty_there f))
        low high

  pub items-attach :
      (k : Key)
      → lookup key_dec k (attach node.key f node bs p).items
        ≡ ite (key_dec node.key k) (some placed) (lookup key_dec k p.items)
  unfolding attach
  items-attach k = lookup-upsert key_dec node.key k placed p.items

  at-attach_new : at f p.next (attach node.key f node bs p).buckets ≡ some node.key
  at-attach_new = ground (arith, at-attach f p.next)

  at-attach_old :
      (g e : ℕ) (k : Key)
      → at g e bs ≡ some k
      → at g e (attach node.key f node bs p).buckets ≡ some k
  at-attach_old g e k h = ground (arith, at-attach g e, empty_there g)

  -- An element of the new buckets is the new one, or an old one of another key.
  at-attach_cases :
      (g e : ℕ) (k : Key)
      → at g e (attach node.key f node bs p).buckets ≡ some k
      → ((g ≡ f) × (e ≡ p.next) × (k ≡ node.key)) ⊎ ((at g e p.buckets ≡ some k) × (k ≢ node.key))
  at-attach_cases g e k h = elim (ℕ_discrete f g) [
    | yes a ↦ elim (ℕ_discrete p.next e) [
      | yes b ↦ inl (sym a, sym b, ground (arith, at-attach g e))
      | no b ↦ inr (w.out g e k (ground (arith, at-attach g e)))
    ]
    | no a ↦ inr (w.out g e k (ground (arith, at-attach g e)))
  ]

  next-attach : (attach node.key f node bs p).next ≡ suc p.next
  unfolding attach
  next-attach = refl

  keyed-attach : Distinct key_dec (attach node.key f node bs p).items
  unfolding attach
  keyed-attach = upsert-Distinct key_dec node.key placed p.items v.keyed

  pub attach-IsIndexed : IsIndexed (attach node.key f node bs p)
  attach-IsIndexed = record {
    sound = attach-IsSound;
    keyed = keyed-attach;
    forth = λ k it h. elim (key_dec node.key k) [
      | yes e ↦ ground (arith, items-attach k, at-attach_new)
      | no e ↦
          let old : lookup key_dec k p.items ≡ some it = ground (arith, items-attach k) in
          at-attach_old it.freq it.el k (w.kept it.freq it.el k (v.forth k it old) (λ q. e (sym q)))
    ];
    back = λ k g e h. elim (at-attach_cases g e k h) [
      | inl (a, b, c) ↦ ground (arith, items-attach k)
      | inr (old, other) ↦ ground (arith, items-attach k, v.back k g e old)
    ];
    fresh = λ g e k h. elim (at-attach_cases g e k h) [
      | inl (a, b, c) ↦ omega (arith, b, next-attach)
      | inr (old, other) ↦ omega (arith, v.fresh g e k old, next-attach)
    ];
  }

-- The fields of ageing are not part of the invariant.
abbrev pub tuned : Float64 → ℕ → ℕ → Lfu → Lfu
tuned d c m p = record p { decay = d; age_cnt = c; age_max = m }

pub tuned-IsValid : (d : Float64) (c m : ℕ) (p : Lfu) → IsValid p → IsValid (tuned d c m p)
tuned-IsValid d c m p v = record {
  indexed = record {
    sound = v.indexed.sound;
    keyed = v.indexed.keyed;
    forth = v.indexed.forth;
    back = v.indexed.back;
    fresh = v.indexed.fresh;
  };
  full = v.full;
  exact = record { counted = v.exact.counted; accounted = v.exact.accounted };
}
