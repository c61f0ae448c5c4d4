-- ===== src/Events/Delivery.antt =====
-- The loop of Publish in events/bus.go.
use Prim.Native.Nat.{pred}
use adaptive_caching.Base.{
  occurs, AllDifferent, ℕ, ◌+◌, ◌%◌, ◌≡◌, refl, ◌∙◌, Bool, true, false, List, [], ◌∷◌, ◌++◌, Option,
  none, some, arith, ℕ_discrete, two64, lookup, upsert, lookup-upsert, length, ltb, if◌then◌else◌,
  done, Returns,
}
use adaptive_caching.Events.{Event, Subscriber, wants, offer, offer_all}

-- The subscriber at an address is there, and its channel is open.
abbrev pub is_open : ℕ → List (ℕ × Subscriber) → Bool
is_open a heap = elim (lookup ℕ_discrete a heap) [
  | none ↦ false
  | some s ↦ if s.ch.closed then false else true
]

abbrev pub AllOpen : List ℕ → List (ℕ × Subscriber) → Type 0
AllOpen [] heap = Unit
AllOpen (a ∷ order) heap = (is_open a heap ≡ true) × AllOpen order heap

-- The state of a subscriber after an event was offered to it, with an open channel: a wanted event
-- goes to a blocked receiver, else into the buffer if there is room, else it is counted as dropped.
unfoldable pub offered : Event → Subscriber → Subscriber
offered e s =
    if wants e.kind s
    then (if ltb 0 s.ch.waiting
        then record s {
          ch = record (s.ch) { received = s.ch.received ++ e ∷ []; waiting = pred s.ch.waiting };
        }
        else if ltb (length s.ch.queue) s.ch.size
        then record s { ch = record (s.ch) { queue = s.ch.queue ++ e ∷ [] } }
        else record s { dropped = (s.dropped + 1) % two64 })
    else s

offer-offered : (e : Event) (s : Subscriber) → s.ch.closed ≡ false → offer e s ≡ done (offered e s)
unfolding offer offered
offer-offered e s open' = ground arith

pub offered_open : (e : Event) (s : Subscriber) → (offered e s).ch.closed ≡ s.ch.closed
unfolding offered
offered_open e s = ground arith

is_open-upsert :
    (e : Event) (a b : ℕ) (s : Subscriber) (heap : List (ℕ × Subscriber))
    → lookup ℕ_discrete a heap ≡ some s
    → is_open b (upsert ℕ_discrete a (offered e s) heap) ≡ is_open b heap
is_open-upsert e a b s heap h =
    ground (arith, lookup-upsert ℕ_discrete a b (offered e s) heap, offered_open e s)

AllOpen-upsert :
    (e : Event) (a : ℕ) (s : Subscriber) (order : List ℕ) (heap : List (ℕ × Subscriber))
    → lookup ℕ_discrete a heap ≡ some s
    → AllOpen order heap
    → AllOpen order (upsert ℕ_discrete a (offered e s) heap)
AllOpen-upsert e a s [] heap h o = tt
AllOpen-upsert e a s (b ∷ order) heap h o =
    (is_open-upsert e a b s heap h ∙ o.0, AllOpen-upsert e a s order heap h o.1)

-- What is at an address after the event was offered to all of `order`.
abbrev pub after : Event → List ℕ → List (ℕ × Subscriber) → ℕ → Option Subscriber
after e order heap a = elim (lookup ℕ_discrete a heap) [
  | none ↦ none
  | some s ↦ some (if occurs a order then offered e s else s)
]

pub find_open :
    (a : ℕ) (heap : List (ℕ × Subscriber))
    → is_open a heap ≡ true
    → (s : Subscriber) × (lookup ℕ_discrete a heap ≡ some s) × (s.ch.closed ≡ false)
find_open a heap o = ground arith

pub offer_all_lem :
    (e : Event) (order : List ℕ) (heap : List (ℕ × Subscriber))
    → AllOpen order heap
    → AllDifferent order
    → Returns
        (offer_all e order heap)
        (λ heap'. (a : ℕ) → lookup ℕ_discrete a heap' ≡ after e order heap a)
unfolding offer_all
offer_all_lem e [] heap o d = (heap, refl, λ a. ground arith)
offer_all_lem e (b ∷ order) heap o d =
    let (s, found, open') = find_open b heap o.0 in
    let (heap', ran, rest) =
      offer_all_lem e order (upsert ℕ_discrete b (offered e s) heap)
        (AllOpen-upsert e b s order heap found o.1) d.1 in
    (
      heap',
      rw (found, offer_all, offer-offered e s open') ran,
      λ a. rest a ∙ ground (arith, lookup-upsert ℕ_discrete b a (offered e s) heap, d.0),
    )
