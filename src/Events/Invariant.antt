-- ===== src/Events/Invariant.antt =====
-- The invariant of the bus of events/bus.go, and Publish.
use adaptive_caching.Base.{
  occurs, AllDifferent, ℕ, ◌≤◌, ◌<◌, ◌≡◌, refl, sym, ◌∙◌, ◌⊎◌, inl, inr, true, List, [], ◌∷◌, some,
  arith, Key, key_dec, ℕ_discrete, lookup, length, length-append, Bool-cases, Option-cases, Returns,
}
use adaptive_caching.Events.{Event, Subscriber, MemBus, new_bus, publish}
use adaptive_caching.Events.Delivery.{is_open, AllOpen, offered, after, offer_all_lem, offered_open}

pub record IsValid (b : MemBus) : Type 0 where
  pub different : AllDifferent b.order
  pub live : AllOpen b.order b.heap
  pub fresh : (a : ℕ) (s : Subscriber) → lookup ℕ_discrete a b.heap ≡ some s → a < b.next
  pub bounded :
      (a : ℕ) (s : Subscriber) → lookup ℕ_discrete a b.heap ≡ some s → length s.ch.queue ≤ s.ch.size
  pub named : (n : Key) (a : ℕ) → lookup key_dec n b.subs ≡ some a → occurs a b.order ≡ true
  pub apart :
      (n m : Key) (a : ℕ)
      → lookup key_dec n b.subs ≡ some a
      → lookup key_dec m b.subs ≡ some a
      → n ≡ m
  pub shut : b.closed ≡ true → b.order ≡ []

pub new_bus-IsValid : IsValid new_bus
unfolding new_bus lookup
new_bus-IsValid = record {
  different = tt;
  live = tt;
  fresh = λ a s h. absurd (ground arith);
  bounded = λ a s h. absurd (ground arith);
  named = λ n a h. absurd (ground arith);
  apart = λ n m a h k. absurd (ground arith);
  shut = λ h. refl;
}

AllOpen-same :
    (order : List ℕ) (h h' : List (ℕ × Subscriber))
    → ((a : ℕ) → is_open a h' ≡ is_open a h)
    → AllOpen order h
    → AllOpen order h'
AllOpen-same [] h h' e o = tt
AllOpen-same (a ∷ order) h h' e o = (e a ∙ o.0, AllOpen-same order h h' e o.1)

offered_bounded :
    (e : Event) (s : Subscriber)
    → length s.ch.queue ≤ s.ch.size
    → length (offered e s).ch.queue ≤ (offered e s).ch.size
unfolding offered
offered_bounded e s h = ground (arith, length-append s.ch.queue (e ∷ []))

after-some :
    (e : Event) (order : List ℕ) (heap : List (ℕ × Subscriber)) (a : ℕ) (s : Subscriber)
    → after e order heap a ≡ some s
    → (t : Subscriber) × (lookup ℕ_discrete a heap ≡ some t) × ((s ≡ offered e t) ⊎ (s ≡ t))
after-some e order heap a s h = elim (Option-cases (lookup ℕ_discrete a heap)) [
  | inl miss ↦ absurd (ground arith)
  | inr (t, hit) ↦ (t, hit, ground arith)
]

after_bounded :
    (e : Event) (order : List ℕ) (heap : List (ℕ × Subscriber))
    → ((a : ℕ) (s : Subscriber) → lookup ℕ_discrete a heap ≡ some s → length s.ch.queue ≤ s.ch.size)
    → (a : ℕ) (s : Subscriber) → after e order heap a ≡ some s
    → length s.ch.queue ≤ s.ch.size
after_bounded e order heap all a s h =
    let (t, hit, which) = after-some e order heap a s h in
    elim which [ inl p ↦ rw p (offered_bounded e t (all a t hit)) | inr p ↦ rw p (all a t hit) ]

-- Publish to a valid bus returns. Every subscriber of the bus is offered the event once, and every
-- other object of the heap, the names and the order stay as they are.
pub publish-after :
    (e : Event) (b : MemBus)
    → IsValid b
    → Returns (publish e b) (λ b'.
      IsValid b'
      × (b'.order ≡ b.order)
      × (b'.subs ≡ b.subs)
      × ((a : ℕ) → lookup ℕ_discrete a b'.heap ≡ after e b.order b.heap a))
unfolding publish
publish-after e b v = elim (Bool-cases b.closed) [
  | inl shut ↦ (b, rw shut refl, (v, refl, refl, λ a. rw (v.shut shut) (ground arith)))
  | inr open' ↦
      let (heap, ran, rest) = offer_all_lem e b.order b.heap v.live v.different in
      (
        record b { heap = heap },
        rw (open', ran) refl,
        (
          record {
            different = v.different;
            live = AllOpen-same b.order b.heap heap (λ a. same heap rest a) v.live;
            fresh = λ a s h.
                (let (t, hit, _) = after-some e b.order b.heap a s (sym (rest a) ∙ h) in
                  v.fresh a t hit);
            bounded = λ a s h. after_bounded e b.order b.heap v.bounded a s (sym (rest a) ∙ h);
            named = v.named;
            apart = v.apart;
            shut = v.shut;
          },
          refl,
          refl,
          rest,
        ),
      )
]
  where
    same :
        (heap : List (ℕ × Subscriber))
        → ((a : ℕ) → lookup ℕ_discrete a heap ≡ after e b.order b.heap a)
        → (a : ℕ) → is_open a heap ≡ is_open a b.heap
    same heap rest a = elim (Option-cases (lookup ℕ_discrete a b.heap)) [
      | inl miss ↦ ground (arith, rest a)
      | inr (s, hit) ↦ ground (arith, rest a, offered_open e s)
    ]
