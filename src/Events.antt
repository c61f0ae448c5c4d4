-- ===== src/Events.antt =====
-- events/types.go and events/bus.go: the event bus. A subscriber is an object that the map `subs`
-- and the slice `order` share, so it stands in a heap under its address. An event's payload is left
-- out: the cache publishes none and the bus never reads it.
pub mod Closing
pub mod Delivery
pub mod Lifecycle
pub mod Subscription
pub mod Invariant
pub mod Payloads
use adaptive_caching.Base.{
  ℕ, suc, ◌+◌, ◌%◌, Bool, true, false, List, [], ◌∷◌, ◌++◌, Option, none, some, Key, key_dec,
  ℕ_discrete, Int64, two63, two64, lookup, upsert, delete, length, get_elem?, set, replicate, ltb,
  leb, ◌==◌, if◌then◌else◌, Run, done, panic, ◌>>=◌, or_panic,
}
use Prim.Native.Nat.{pred}
use adaptive_caching.Types.{Time}

-- `Type`, a uint8, and the values of the enumeration that the cache and the command publish.
abbrev pub EventType : Type 0
EventType = ℕ

abbrev pub type_hit : EventType
type_hit = 1

abbrev pub type_miss : EventType
type_miss = 2

abbrev pub type_eviction : EventType
type_eviction = 3

abbrev pub type_detection : EventType
type_detection = 4

abbrev pub type_switch : EventType
type_switch = 5

abbrev pub type_tuning : EventType
type_tuning = 6

abbrev pub type_scenario_mark : EventType
type_scenario_mark = 9

abbrev pub type_run_start : EventType
type_run_start = 10

abbrev pub type_run_end : EventType
type_run_end = 11

-- `maxType`, one more than the last value of the enumeration.
abbrev pub max_type : ℕ
max_type = 12

pub record Event : Type 0 where
  pub seq : ℕ
  pub timestamp : Time
  pub kind : EventType

-- A Go channel: the buffered events, the receivers that are blocked on it, and the events that
-- receivers have got so far.
pub record Channel : Type 0 where
  pub queue : List Event
  pub size : ℕ
  pub waiting : ℕ
  pub received : List Event
  pub closed : Bool

pub record Subscriber : Type 0 where
  pub ch : Channel
  pub all : Bool
  pub filter : List Bool
  pub dropped : ℕ

pub record MemBus : Type 0 where
  pub heap : List (ℕ × Subscriber)
  pub subs : List (Key × ℕ)
  pub order : List ℕ
  pub closed : Bool
  pub next : ℕ

unfoldable pub new_bus : MemBus
new_bus = record { heap = []; subs = []; order = []; closed = false; next = 0 }

-- An entry of the fixed array `filter`.
abbrev pub marked : Option Bool → Bool
marked none = false
marked (some b) = b

unfoldable pub wants : EventType → Subscriber → Bool
wants t s = if s.all then true else if leb max_type t then false else marked (get_elem? s.filter t)

-- `select { case ch <- e: default: }`: `none` stands for the default case. To send on a closed
-- channel panics.
unfoldable pub try_send : Event → Channel → Run (Option Channel)
try_send e c =
    if c.closed
    then panic
    else if ltb 0 c.waiting
    then done (some (record c { received = c.received ++ e ∷ []; waiting = pred c.waiting }))
    else if ltb (length c.queue) c.size
    then done (some (record c { queue = c.queue ++ e ∷ [] }))
    else done none

-- The body of Publish's loop, for one subscriber.
unfoldable pub offer : Event → Subscriber → Run Subscriber
unfolding wants try_send
offer e s =
    if wants e.kind s
    then (do
      sent ← try_send e s.ch
      done (elim sent [
        | none ↦ record s { dropped = (s.dropped + 1) % two64 }
        | some c ↦ record s { ch = c }
      ]))
    else done s

-- The loop of Publish over `order`.
unfoldable pub offer_all : Event → List ℕ → List (ℕ × Subscriber) → Run (List (ℕ × Subscriber))
offer_all e [] heap = done heap
offer_all e (a ∷ order) heap = do
  s ← or_panic (lookup ℕ_discrete a heap)
  s' ← offer e s
  offer_all e order (upsert ℕ_discrete a s' heap)

unfoldable pub publish : Event → MemBus → Run MemBus
publish e b =
    if b.closed
    then done b
    else (do heap ← offer_all e b.order b.heap; done (record b { heap = heap }))

-- Set the filter's entry of each listed type that is in range.
unfoldable pub mark : List EventType → List Bool → List Bool
mark [] f = f
mark (t ∷ ts) f = mark ts (if ltb t max_type then set f t true else f)

abbrev pub no_types : List EventType → Bool
no_types [] = true
no_types (t ∷ ts) = false

abbrev pub close_channel : Channel → Run Channel
close_channel c = if c.closed then panic else done (record c { closed = true })

-- `close(s.ch)` of the subscriber at an address.
unfoldable pub close_at : ℕ → List (ℕ × Subscriber) → Run (List (ℕ × Subscriber))
close_at a heap = do
  s ← or_panic (lookup ℕ_discrete a heap)
  c ← close_channel s.ch
  done (upsert ℕ_discrete a (record s { ch = c }) heap)

-- The loop of removeLocked: the first place of the subscriber is cut out.
unfoldable pub cut : ℕ → List ℕ → List ℕ
cut a [] = []
cut a (x ∷ xs) = if x == a then xs else x ∷ cut a xs

unfoldable pub remove_locked : Key → MemBus → Run MemBus
remove_locked name b = elim (lookup key_dec name b.subs) [
  | none ↦ done b
  | some a ↦ do
    heap ← close_at a b.heap
    done (record b { subs = delete key_dec name b.subs; order = cut a b.order; heap = heap })
]

-- A new subscriber; a negative buffer counts as zero.
unfoldable pub make_subscriber : Int64 → List EventType → Subscriber
unfolding mark
make_subscriber buf types = record {
  ch = record {
    queue = [];
    size = if leb two63 buf then 0 else buf;
    waiting = 0;
    received = [];
    closed = false;
  };
  all = no_types types;
  filter = mark types (replicate max_type false);
  dropped = 0;
}

-- The address of the new subscriber is returned: its channel is the one that the caller gets.
unfoldable pub subscribe : Key → Int64 → List EventType → MemBus → Run (MemBus × ℕ)
subscribe name buf types b =
    let a = b.next in
    let fresh = record b {
      heap = upsert ℕ_discrete a (make_subscriber buf types) b.heap;
      next = suc a;
    } in
    if b.closed
    then (do heap ← close_at a fresh.heap; done (record fresh { heap = heap }, a))
    else (do
      removed ← remove_locked name fresh
      done (
        record removed {
          subs = upsert key_dec name a removed.subs;
          order = removed.order ++ a ∷ [];
        },
        a,
      ))

unfoldable pub unsubscribe : Key → MemBus → Run MemBus
unsubscribe name b = remove_locked name b

unfoldable pub dropped_count : Key → MemBus → Run ℕ
dropped_count name b = elim (lookup key_dec name b.subs) [
  | none ↦ done 0
  | some a ↦ do s ← or_panic (lookup ℕ_discrete a b.heap); done s.dropped
]

-- The loop of Close.
unfoldable pub close_all : List ℕ → List (ℕ × Subscriber) → Run (List (ℕ × Subscriber))
close_all [] heap = done heap
close_all (a ∷ order) heap = close_at a heap >>= close_all order

unfoldable pub close : MemBus → Run MemBus
close b = if b.closed then done b else (do
  heap ← close_all b.order b.heap
  done (record b { closed = true; heap = heap; subs = []; order = [] }))

-- A receive by the environment, from the channel at an address.
unfoldable pub receive : Channel → Channel
receive c = elim c.queue [
  | [] ↦ if c.closed then c else record c { waiting = suc c.waiting }
  | e ∷ queue ↦ record c { queue = queue; received = c.received ++ e ∷ [] }
]
