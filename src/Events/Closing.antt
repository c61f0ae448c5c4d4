-- ===== src/Events/Closing.antt =====
-- Close of events/bus.go.
use adaptive_caching.Base.{
  occurs, AllDifferent, ℕ, suc, ◌≤◌, ◌≡◌, refl, ◌∙◌, done, inl, inr, true, false, List, [], ◌∷◌,
  Option, none, some, arith, ℕ_discrete, lookup, upsert, lookup-upsert, length, Bool-cases,
  Option-cases, if◌then◌else◌, Returns,
}
use adaptive_caching.Events.{Subscriber, MemBus, Event, close_all, close, publish}
use adaptive_caching.Events.Delivery.{is_open, AllOpen, find_open}
use adaptive_caching.Events.Invariant.{IsValid}
use adaptive_caching.Events.Lifecycle.{closed_one, close_at_lem, AllOpen-other}

-- What is at an address after the channels of `order` were closed.
abbrev shut_down : List ℕ → List (ℕ × Subscriber) → ℕ → Option Subscriber
shut_down order heap a = elim (lookup ℕ_discrete a heap) [
  | none ↦ none
  | some s ↦ some (if occurs a order then closed_one s else s)
]

close_all_lem :
    (order : List ℕ) (heap : List (ℕ × Subscriber))
    → AllOpen order heap
    → AllDifferent order
    → Returns
        (close_all order heap)
        (λ heap'. (a : ℕ) → lookup ℕ_discrete a heap' ≡ shut_down order heap a)
unfolding close_all
close_all_lem [] heap o d = (heap, refl, λ a. ground arith)
close_all_lem (b ∷ order) heap o d =
    let (s, found, open') = find_open b heap o.0 in
    let (heap', ran, rest) =
      close_all_lem order (upsert ℕ_discrete b (closed_one s) heap)
        (AllOpen-other b (closed_one s) order heap d.0 o.1) d.1 in
    (
      heap',
      rw (close_at_lem b s heap found open') ran,
      λ a. rest a ∙ ground (arith, lookup-upsert ℕ_discrete b a (closed_one s) heap, d.0),
    )

shut_down_bounded :
    (b : MemBus) (heap : List (ℕ × Subscriber))
    → IsValid b
    → ((a : ℕ) → lookup ℕ_discrete a heap ≡ shut_down b.order b.heap a)
    → (a : ℕ) (s : Subscriber) → lookup ℕ_discrete a heap ≡ some s
    → (suc a ≤ b.next) × (length s.ch.queue ≤ s.ch.size)
shut_down_bounded b heap v rest a s h = elim (Option-cases (lookup ℕ_discrete a b.heap)) [
  | inl miss ↦ absurd (ground (arith, rest a))
  | inr (t, hit) ↦ ground (arith, rest a, v.fresh a t hit, v.bounded a t hit)
]

-- Close of a valid bus returns (so no channel is closed twice) and closes the channel of every
-- subscriber; the bus stays valid and has no subscribers. To close it again, or to publish to it,
-- changes nothing.
pub close-IsValid :
    (b : MemBus)
    → IsValid b
    → Returns (close b) (λ b'.
      IsValid b'
      × (b'.closed ≡ true)
      × (b'.order ≡ [])
      × ((a : ℕ) → occurs a b.order ≡ true → is_open a b'.heap ≡ false)
      × (close b' ≡ done b')
      × ((e : Event) → publish e b' ≡ done b'))
unfolding close publish lookup
close-IsValid b v = elim (Bool-cases b.closed) [
  | inl shut ↦ (
    b,
    rw (shut, close) refl,
    (
      v,
      shut,
      v.shut shut,
      λ a h. absurd (ground (arith, v.shut shut)),
      rw (shut, close) refl,
      λ e. rw (shut, publish) refl,
    ),
  )
  | inr open' ↦
      let (heap, ran, rest) = close_all_lem b.order b.heap v.live v.different in
      (
        record b { closed = true; heap = heap; subs = []; order = [] },
        rw (open', close, ran) refl,
        (
          record {
            different = tt;
            live = tt;
            fresh = λ a s h. (shut_down_bounded b heap v rest a s h).0;
            bounded = λ a s h. (shut_down_bounded b heap v rest a s h).1;
            named = λ n a h. absurd (ground arith);
            apart = λ n m a h k. absurd (ground arith);
            shut = λ h. refl;
          },
          refl,
          refl,
          λ a h. elim (Option-cases (lookup ℕ_discrete a b.heap)) [
            | inl miss ↦ ground (arith, rest a)
            | inr (t, hit) ↦ ground (arith, rest a)
          ],
          refl,
          λ e. refl,
        ),
      )
]
