-- ===== src/Events/Subscription.antt =====
-- Subscribe of events/bus.go.
use adaptive_caching.Base.{
  occurs, ℕ, ◌≤◌, ◌≡◌, ◌≢◌, refl, ◌∙◌, true, false, List, none, some, arith, Key, key_dec,
  ℕ_discrete, Int64, lookup, lookup-upsert, length, done, Returns,
}
use adaptive_caching.Events.{EventType, MemBus, remove_locked, make_subscriber, subscribe}
use adaptive_caching.Events.Delivery.{is_open}
use adaptive_caching.Events.Invariant.{IsValid}
use adaptive_caching.Events.Lifecycle.{
  allocated, registered, remove_locked-IsValid, next_unused, allocated-IsValid, occurs-append,
  append-AllDifferent, append-AllOpen,
}

module _ (name : Key) (a : ℕ) (b : MemBus) (v : IsValid b) where
  registered-IsValid :
      b.closed ≡ false
      → lookup key_dec name b.subs ≡ none
      → occurs a b.order ≡ false
      → is_open a b.heap ≡ true
      → IsValid (registered name a b)
  unfolding registered
  registered-IsValid open' free new live = record {
    different = append-AllDifferent a b.order v.different new;
    live = append-AllOpen a b.order b.heap v.live live;
    fresh = v.fresh;
    bounded = v.bounded;
    named = λ n c e.
        ground
          (arith, lookup-upsert key_dec name n a b.subs, occurs-append c a b.order, v.named n c);
    apart = λ n m c e f. ground (
      arith,
      lookup-upsert key_dec name n a b.subs,
      lookup-upsert key_dec name m a b.subs,
      v.named n c,
      v.named m c,
      v.apart n m c,
    );
    shut = λ e. absurd (ground arith);
  }

make_subscriber_fits :
    (buf : Int64) (types : List EventType)
    → (length (make_subscriber buf types).ch.queue ≤ (make_subscriber buf types).ch.size)
      × ((make_subscriber buf types).ch.closed ≡ false)
unfolding make_subscriber
make_subscriber_fits buf types = (omega arith, refl)

subscribe_lem :
    (name : Key) (buf : Int64) (types : List EventType) (b b' : MemBus)
    → b.closed ≡ false
    → remove_locked name (allocated (make_subscriber buf types) b) ≡ done b'
    → subscribe name buf types b ≡ done (registered name b.next b', b.next)
unfolding subscribe allocated registered
subscribe_lem name buf types b b' open' ran = ground arith

-- Subscribe on a valid bus that is not closed returns and keeps the bus valid: the name leads to
-- the new subscriber, whose channel is open, and every other name keeps its subscriber.
pub subscribe-IsValid :
    (name : Key) (buf : Int64) (types : List EventType) (b : MemBus)
    → IsValid b
    → b.closed ≡ false
    → Returns (subscribe name buf types b) (λ r.
      IsValid r.0
      × (r.1 ≡ b.next)
      × (lookup key_dec name r.0.subs ≡ some r.1)
      × (is_open r.1 r.0.heap ≡ true)
      × ((m : Key) → m ≢ name → lookup key_dec m r.0.subs ≡ lookup key_dec m b.subs))
unfolding subscribe allocated registered
subscribe-IsValid name buf types b v open' =
    let s = make_subscriber buf types in
    let fits = make_subscriber_fits buf types in
    let fresh = allocated s b in
    let new = next_unused name b v in
    let (removed', ran, (valid, free, others, same, next, place)) =
      remove_locked-IsValid name fresh (allocated-IsValid name b v s fits.0) in
    let (left, live) = place b.next new in
    let live' : is_open b.next removed'.heap ≡ true =
      ground (arith, live, lookup-upsert ℕ_discrete b.next b.next s b.heap) in
    (
      (registered name b.next removed', b.next),
      subscribe_lem name buf types b removed' open' ran,
      (
        registered-IsValid name b.next removed' valid (same ∙ open') free left live',
        refl,
        ground (arith, lookup-upsert key_dec name name b.next removed'.subs),
        live',
        λ m ne. ground (arith, lookup-upsert key_dec name m b.next removed'.subs, others m ne),
      ),
    )
