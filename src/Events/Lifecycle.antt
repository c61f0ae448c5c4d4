-- ===== src/Events/Lifecycle.antt =====
-- Subscribe and removeLocked of events/bus.go.
use adaptive_caching.Base.{
  occurs, AllDifferent, ℕ, suc, ◌≤◌, ◌≡◌, ◌≢◌, refl, ap, inl, inr, true, false, List, [], ◌∷◌, ◌++◌,
  none, some, ite, arith, Key, key_dec, ℕ_discrete, lookup, upsert, delete, lookup-upsert,
  lookup-delete, length, Bool-cases, Option-cases, if◌then◌else◌, done, Returns,
}
use adaptive_caching.Events.{Subscriber, MemBus, close_at, cut, remove_locked}
use adaptive_caching.Events.Delivery.{is_open, AllOpen, find_open}
use adaptive_caching.Events.Invariant.{IsValid}

-- The subscriber with its channel closed.
abbrev pub closed_one : Subscriber → Subscriber
closed_one s = record s { ch = record (s.ch) { closed = true } }

pub close_at_lem :
    (a : ℕ) (s : Subscriber) (heap : List (ℕ × Subscriber))
    → lookup ℕ_discrete a heap ≡ some s
    → s.ch.closed ≡ false
    → close_at a heap ≡ done (upsert ℕ_discrete a (closed_one s) heap)
unfolding close_at
close_at_lem a s heap h o = rw (h, close_at) (ground arith)

occurs-cut :
    (a b : ℕ) (l : List ℕ)
    → AllDifferent l
    → occurs b (cut a l) ≡ ite (ℕ_discrete a b) false (occurs b l)
unfolding cut
occurs-cut a b [] d = ground arith
occurs-cut a b (x ∷ l) d = ground (arith, occurs-cut a b l d.1)

cut-AllDifferent : (a : ℕ) (l : List ℕ) → AllDifferent l → AllDifferent (cut a l)
unfolding cut
cut-AllDifferent a [] d = tt
cut-AllDifferent a (x ∷ l) d = ground (arith, cut-AllDifferent a l d.1, occurs-cut a x l d.1)

is_open-occurs :
    (a : ℕ) (l : List ℕ) (heap : List (ℕ × Subscriber))
    → AllOpen l heap
    → occurs a l ≡ true
    → is_open a heap ≡ true
is_open-occurs a [] heap o h = absurd (ground arith)
is_open-occurs a (x ∷ l) heap o h = elim (ℕ_discrete x a) [
  | yes p ↦ ground (arith, o.0)
  | no p ↦ is_open-occurs a l heap o.1 (ground arith)
]

-- To change one address that is not in the list keeps the list open.
pub AllOpen-other :
    (a : ℕ) (s : Subscriber) (l : List ℕ) (heap : List (ℕ × Subscriber))
    → occurs a l ≡ false
    → AllOpen l heap
    → AllOpen l (upsert ℕ_discrete a s heap)
AllOpen-other a s [] heap n o = tt
AllOpen-other a s (x ∷ l) heap n o = (
  ground (arith, o.0, lookup-upsert ℕ_discrete a x s heap),
  AllOpen-other a s l heap (ground arith) o.1,
)

AllOpen-cut :
    (a : ℕ) (l : List ℕ) (heap : List (ℕ × Subscriber)) → AllOpen l heap → AllOpen (cut a l) heap
unfolding cut
AllOpen-cut a [] heap o = tt
AllOpen-cut a (x ∷ l) heap o = ground (arith, AllOpen-cut a l heap o.1)

-- The bus without the subscriber `s` at `a` and its name.
removed : Key → ℕ → Subscriber → MemBus → MemBus
removed name a s b = record b {
  subs = delete key_dec name b.subs;
  order = cut a b.order;
  heap = upsert ℕ_discrete a (closed_one s) b.heap;
}

-- The bus with a new object, before that is registered.
unfoldable pub allocated : Subscriber → MemBus → MemBus
allocated s b = record b { heap = upsert ℕ_discrete b.next s b.heap; next = suc b.next }

-- The bus with the subscriber at `a` registered.
unfoldable pub registered : Key → ℕ → MemBus → MemBus
registered name a b = record b { subs = upsert key_dec name a b.subs; order = b.order ++ a ∷ [] }

-- What is left when the named subscriber is gone: its channel is closed, and it is in neither the
-- map nor the order; every other subscriber stays.
module _ (name : Key) (b : MemBus) (v : IsValid b) where
  removed-IsValid :
      (a : ℕ) (s : Subscriber)
      → lookup key_dec name b.subs ≡ some a
      → lookup ℕ_discrete a b.heap ≡ some s
      → IsValid (removed name a s b)
  unfolding removed cut
  removed-IsValid a s n h = record {
    different = cut-AllDifferent a b.order v.different;
    live =
        AllOpen-other a (closed_one s) (cut a b.order) b.heap
          (ground (arith, occurs-cut a a b.order v.different))
          (AllOpen-cut a b.order b.heap v.live);
    fresh = λ c t e.
        ground
          (arith, lookup-upsert ℕ_discrete a c (closed_one s) b.heap, v.fresh c t, v.fresh a s);
    bounded = λ c t e.
        ground
          (arith, lookup-upsert ℕ_discrete a c (closed_one s) b.heap, v.bounded c t, v.bounded a s);
    named = λ m c e. ground (
      arith,
      lookup-delete key_dec name m b.subs,
      occurs-cut a c b.order v.different,
      v.named m c,
      v.apart name m a,
    );
    apart = λ m k c e f. ground (
      arith,
      lookup-delete key_dec name m b.subs,
      lookup-delete key_dec name k b.subs,
      v.apart m k c,
    );
    shut = λ e. ap (cut a) (v.shut e);
  }

  -- Unsubscribe returns; the name is gone, and every other name keeps its subscriber.
  pub remove_locked-IsValid : Returns (remove_locked name b) (λ b'.
      IsValid b'
      × (lookup key_dec name b'.subs ≡ none)
      × ((m : Key) → m ≢ name → lookup key_dec m b'.subs ≡ lookup key_dec m b.subs)
      × (b'.closed ≡ b.closed)
      × (b'.next ≡ b.next)
      × ((c : ℕ)
          → occurs c b.order ≡ false
          → (occurs c b'.order ≡ false) × (is_open c b'.heap ≡ is_open c b.heap)))
  unfolding remove_locked removed
  remove_locked-IsValid = elim (Option-cases (lookup key_dec name b.subs)) [
    | inl miss ↦
        (b, rw (miss, remove_locked) refl, (v, miss, λ m ne. refl, refl, refl, λ c n. (n, refl)))
    | inr (a, hit) ↦
        let (s, found, open') =
          find_open a b.heap (is_open-occurs a b.order b.heap v.live (v.named name a hit)) in
        (
          removed name a s b,
          rw (hit, remove_locked, close_at_lem a s b.heap found open') refl,
          (
            removed-IsValid a s hit found,
            ground (arith, lookup-delete key_dec name name b.subs),
            λ m ne. ground (arith, lookup-delete key_dec name m b.subs),
            refl,
            refl,
            λ c n. (
              ground (arith, occurs-cut a c b.order v.different),
              ground
                  (arith, v.named name a hit, lookup-upsert ℕ_discrete a c (closed_one s) b.heap),
            ),
          ),
        )
  ]

  -- No subscriber has the next address yet.
  pub next_unused : occurs b.next b.order ≡ false
  next_unused = elim (Bool-cases (occurs b.next b.order)) [
    | inl e ↦
        let (s, found, _) =
          find_open b.next b.heap (is_open-occurs b.next b.order b.heap v.live e) in
        absurd (omega (arith, v.fresh b.next s found))
    | inr e ↦ e
  ]

  pub allocated-IsValid : (s : Subscriber) → length s.ch.queue ≤ s.ch.size → IsValid (allocated s b)
  unfolding allocated
  allocated-IsValid s room = record {
    different = v.different;
    live = AllOpen-other b.next s b.order b.heap next_unused v.live;
    fresh = λ c t e. ground (arith, lookup-upsert ℕ_discrete b.next c s b.heap, v.fresh c t);
    bounded = λ c t e. ground (arith, lookup-upsert ℕ_discrete b.next c s b.heap, v.bounded c t);
    named = v.named;
    apart = v.apart;
    shut = v.shut;
  }

pub occurs-append :
    (c a : ℕ) (l : List ℕ)
    → occurs c (l ++ a ∷ []) ≡ (if occurs c l then true else ite (ℕ_discrete a c) true false)
occurs-append c a [] = refl
occurs-append c a (x ∷ l) = ground (arith, occurs-append c a l)

pub append-AllDifferent :
    (a : ℕ) (l : List ℕ) → AllDifferent l → occurs a l ≡ false → AllDifferent (l ++ a ∷ [])
append-AllDifferent a [] d n = (refl, tt)
append-AllDifferent a (x ∷ l) d n =
    (ground (arith, occurs-append x a l, d.0), append-AllDifferent a l d.1 (ground arith))

pub append-AllOpen :
    (a : ℕ) (l : List ℕ) (heap : List (ℕ × Subscriber))
    → AllOpen l heap
    → is_open a heap ≡ true
    → AllOpen (l ++ a ∷ []) heap
append-AllOpen a [] heap o h = (h, tt)
append-AllOpen a (x ∷ l) heap o h = (o.0, append-AllOpen a l heap o.1 h)

-- A subscriber that stands in the heap is registered under a name that is free.
