-- ===== src/Policy/Lfu/Moves.antt =====
-- How cache/policy/lfu.go moves a key to another bucket: incrementLocked, with OnInsert and OnRemove.
use adaptive_caching.Base.{
  ℕ, ◌≤◌, ◌≡◌, refl, sym, ◌∙◌, ap, subst, inl, inr, ◌∷◌, Option, none, some, ite, arith, Key,
  key_dec, ℕ_discrete, lookup, upsert, length, lookup-upsert, Option-cases, length-upsert_old,
  Returns, ◌==◌, Bool-cases,
}
use adaptive_caching.Types.{Entry}
use adaptive_caching.Policy.LinkedList.{
  Node, Elements, key_at, push_front, remove_element, set_entry, key_at-set_entry, length-set_entry,
  Distinct-remove_element, Distinct-set_entry,
}
use adaptive_caching.Policy.Lfu.{
  Lfu, Item, Buckets, bucket_of, settle, max_lfu_freq, attach, relocate, increment, add, next_freq,
}
use adaptive_caching.Policy.Lfu.Buckets.{
  at, at-upsert, at-settle, IsSound, upsert-IsSound, settle-IsSound, bucket_of-some, IsFull,
  settle-IsFull,
}
use adaptive_caching.Policy.Lfu.Invariant.{
  IsIndexed, IsCounted, IsWithout, taken-IsWithout, absent-IsWithout, attach-IsIndexed,
  items-attach,
}

-- The frequency that is kept for a key.
abbrev pub freq_of : Lfu → Key → Option ℕ
freq_of p k = elim (lookup key_dec k p.items) [ none ↦ none | some it ↦ some it.freq ]

-- The element of an item is in its bucket.
pub find_node :
    (p : Lfu) (v : IsIndexed p) (key : Key) (it : Item)
    → lookup key_dec key p.items ≡ some it
    → (l : Elements) × (node : Node) × (lookup ℕ_discrete it.freq p.buckets ≡ some l)
      × (lookup ℕ_discrete it.el l ≡ some node)
      × (node.key ≡ key)
unfolding lookup
find_node p v key it hit = elim (Option-cases (lookup ℕ_discrete it.freq p.buckets)) [
  | inl miss ↦ absurd (ground (arith, v.forth key it hit))
  | inr (l, here) ↦ elim (Option-cases (lookup ℕ_discrete it.el l)) [
    | inl miss ↦ absurd (ground (arith, v.forth key it hit))
    | inr (node, there) ↦ (l, node, here, there, ground (arith, v.forth key it hit))
  ]
]

pub attach-IsFull :
    (key : Key) (f : ℕ) (node : Node) (bs : Buckets) (p : Lfu)
    → IsFull bs
    → IsFull (attach key f node bs p).buckets
unfolding attach push_front
attach-IsFull key f node bs p full g m h e =
    ground (arith, lookup-upsert ℕ_discrete f g ((p.next, node) ∷ bucket_of f bs) bs, full g m)

-- A key was moved to a frequency; no other key was.
pub record IsMoved (key : Key) (f : ℕ) (p p' : Lfu) : Type 0 where
  pub indexed : IsIndexed p'
  pub exact : IsCounted p → IsCounted p'
  pub freqs : (k : Key) → freq_of p' k ≡ ite (key_dec key k) (some f) (freq_of p k)

module _ (p : Lfu) (v : IsIndexed p) (it : Item) (node : Node)
    (hit : lookup key_dec node.key p.items ≡ some it) (f : ℕ) (low : 1 ≤ f)
    (high : f ≤ max_lfu_freq) where
  -- The buckets without the node's element; the node goes to the front of its new bucket.
  pub attach-IsMoved :
      (bs : Buckets)
      → IsWithout node.key bs p.buckets
      → IsMoved node.key f p (attach node.key f node bs p)
  unfolding attach
  attach-IsMoved bs w = record {
    indexed = attach-IsIndexed p v node bs w f low high;
    exact = λ c. record {
      counted = ground (arith, c.counted, size);
      accounted = ground (arith, c.accounted, size);
    };
    freqs = λ k. ground (arith, items-attach p v node bs w f low high k);
  }
    where
      size : length (attach node.key f node bs p).items ≡ length p.items
      size = length-upsert_old key_dec node.key (record { el = p.next; freq = f }) it p.items hit

pub relocate-IsMoved :
    (p : Lfu) (v : IsIndexed p) (key : Key) (it : Item)
    → lookup key_dec key p.items ≡ some it
    → (f : ℕ) → 1 ≤ f
    → f ≤ max_lfu_freq
    → Returns
        (relocate key it f p)
        (λ p'. IsMoved key f p p' × (IsFull p.buckets → IsFull p'.buckets))
unfolding relocate
relocate-IsMoved p v key it hit f low high =
    let (l, node, here, there, same) = find_node p v key it hit in
    let bs = settle it.freq (remove_element it.el l) p.buckets in
    let range = v.sound.range it.freq l here in
    let sound : IsSound bs =
      settle-IsSound it.freq (remove_element it.el l) p.buckets v.sound
        (Distinct-remove_element it.el l (v.sound.elements it.freq l here)) range.0 range.1 in
    let w : IsWithout key bs p.buckets = taken-IsWithout p v key it hit bs sound (λ g e.
      at-settle it.freq g e (remove_element it.el l) p.buckets
      ∙ ap
          (λ (m : Elements).
            ite (ℕ_discrete it.freq g) (key_at e (remove_element it.el m)) (at g e p.buckets))
          (sym (bucket_of-some it.freq l p.buckets here))) in
    (
      attach key f node bs p,
      ground arith,
      (
        subst (λ k. IsMoved k f p (attach k f node bs p)) same
            (attach-IsMoved p v it node (ap (λ k. lookup key_dec k p.items) same ∙ hit) f low high
              bs (subst (λ k. IsWithout k bs p.buckets) (sym same) w)),
        λ h.
            attach-IsFull key f node bs p
              (settle-IsFull it.freq (remove_element it.el l) p.buckets h),
      ),
    )

-- The frequency of an item is possible, and so is the one after it.
item_range :
    (p : Lfu) (v : IsIndexed p) (key : Key) (it : Item)
    → lookup key_dec key p.items ≡ some it
    → (1 ≤ it.freq) × (it.freq ≤ max_lfu_freq)
item_range p v key it hit =
    let (l, node, here, there, same) = find_node p v key it hit in v.sound.range it.freq l here

pub increment-IsMoved :
    (p : Lfu) (v : IsIndexed p) (key : Key) (it : Item)
    → lookup key_dec key p.items ≡ some it
    → Returns
        (increment key it p)
        (λ p'. IsMoved key (next_freq it.freq) p p' × (IsFull p.buckets → IsFull p'.buckets))
unfolding increment
increment-IsMoved p v key it hit =
    let (low, high) = item_range p v key it hit in
    elim (Bool-cases (it.freq == next_freq it.freq)) [
      | inl top ↦ (
        p,
        rw top refl,
        (record { indexed = v; exact = λ c. c; freqs = λ k. ground arith }, λ h. h),
      )
      | inr below ↦
          let (r, ran, m) =
            relocate-IsMoved p v key it hit (next_freq it.freq) (ground arith) (ground arith) in
          (r, rw below ran, m)
    ]

-- To note another entry in an element moves nothing.
module _ (p : Lfu) (v : IsIndexed p) (f el e : ℕ) (l : Elements)
    (here : lookup ℕ_discrete f p.buckets ≡ some l) where
  abbrev pub noted : Lfu
  noted = record p { buckets = upsert ℕ_discrete f (set_entry el e l) p.buckets }

  at-noted : (g x : ℕ) → at g x noted.buckets ≡ at g x p.buckets
  at-noted g x =
      ground (arith, at-upsert f g x (set_entry el e l) p.buckets, key_at-set_entry el x e l)

  pub noted-IsIndexed : IsIndexed noted
  noted-IsIndexed =
      let range = v.sound.range f l here in
      record {
        sound =
            upsert-IsSound f (set_entry el e l) p.buckets v.sound
              (Distinct-set_entry el e l (v.sound.elements f l here)) range.0 range.1;
        keyed = v.keyed;
        forth = λ k it h. at-noted it.freq it.el ∙ v.forth k it h;
        back = λ k g x h. v.back k g x (sym (at-noted g x) ∙ h);
        fresh = λ g x k h. v.fresh g x k (sym (at-noted g x) ∙ h);
      }

  pub noted-IsFull : IsFull p.buckets → IsFull noted.buckets
  noted-IsFull full g m h e' = ground (
    arith,
    lookup-upsert ℕ_discrete f g (set_entry el e l) p.buckets,
    full g m,
    full f l here,
    length-set_entry el e l,
  )

pub add-IsIndexed :
    (p : Lfu) (v : IsIndexed p) (key : Key) (e : Entry) (f : ℕ)
    → lookup key_dec key p.items ≡ none
    → 1 ≤ f
    → f ≤ max_lfu_freq
    → IsIndexed (add key e f p)
unfolding add
add-IsIndexed p v key e f miss low high =
    let i =
      attach-IsIndexed p v (record { key = key; e = e.addr }) p.buckets
        (absent-IsWithout p v key miss) f low high in
    record { sound = i.sound; keyed = i.keyed; forth = i.forth; back = i.back; fresh = i.fresh }
