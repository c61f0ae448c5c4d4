-- ===== src/Cache.antt =====
-- cache/core.go: the store, the eviction policy, the metrics and the event bus wired together. The
-- policy is any implementation of the interface. Each method runs under the core's lock, so methods
-- are steps of one sequence; the readings of the clock are arguments.
pub mod Hooks
pub mod Serving
pub mod Occupancy
pub mod Switching
pub mod Exchange
pub mod Wiring
pub mod Eviction
pub mod Admission
pub mod Put
pub mod Threads
pub mod History
pub mod Invariant
use adaptive_caching.Base.{
  ℕ, zero, suc, ◌+◌, ◌%◌, Bool, true, false, List, Option, none, some, Key, Int64, two64, ◌==◌,
  if◌then◌else◌, Run, done, out_of_fuel, ◌>>=◌,
}
use adaptive_caching.Types.{Entry, Value, Time, Request, op_get, sub_time}
use adaptive_caching.Store
use adaptive_caching.Store.{
  Store, Error, ok, err, capacity_exceeded, new_store, touch, object_count,
}
use adaptive_caching.Policy.{EvictionPolicy, PolicyName, no_policy}
use adaptive_caching.Events
use adaptive_caching.Events.{Event, EventType, MemBus, type_hit, type_miss, type_eviction}
use adaptive_caching.Metrics.{
  Collector, new_collector, record_request, record_fetch, record_eviction,
  set_policy as note_policy,
}

pub record Core (S : Type 0) : Type 0 where
  pub store : Store
  pub policy : Option S
  pub bus : Option MemBus
  pub metrics : Collector
  pub sample_rate : ℕ
  pub seq : ℕ

pub record Options (S : Type 0) : Type 0 where
  pub capacity : Int64
  pub policy : Option S
  pub bus : Option MemBus
  pub metrics : Option Collector
  pub request_sample_rate : ℕ

-- What an operation of the policy does where one is installed.
abbrev pub with_policy : {S : Type 0} → Option S → (S → Run S) → Run (Option S)
with_policy none f = done none
with_policy (some s) f = do s' ← f s; done (some s')

abbrev pub publish_to : Event → Option MemBus → Run (Option MemBus)
publish_to e none = done none
publish_to e (some b) = do b' ← Events.publish e b; done (some b')

abbrev pub sampled : ℕ → ℕ → Bool
sampled seq rate = seq % rate == 0

module _ (p : EvictionPolicy) where
  abbrev pub Cache : Type 0
  Cache = Core p.State

  unfoldable pub policy_name : Option p.State → PolicyName
  policy_name none = no_policy
  policy_name (some s) = p.name s

  unfoldable pub new : Options p.State → Cache
  unfolding policy_name
  new o = record {
    store = new_store o.capacity;
    policy = o.policy;
    bus = o.bus;
    metrics =
        note_policy (policy_name o.policy) (elim o.metrics [ none ↦ new_collector | some m ↦ m ]);
    sample_rate = if o.request_sample_rate == 0 then 1 else o.request_sample_rate;
    seq = 0;
  }

  unfoldable pub publish : Event → Cache → Run Cache
  publish e c = do b ← publish_to e c.bus; done (record c { bus = b })

  -- The access of Get, under the lock: the store's, and the policy's on a hit.
  unfoldable pub access : Key → Option Entry → Option p.State → Run (Option p.State)
  access key none s = done s
  access key (some e) s = with_policy s (p.on_access key e)

  abbrev pub size_of : Option Entry → Int64
  size_of none = 0
  size_of (some e) = e.size

  abbrev pub value_of : Option Entry → Option Value
  value_of none = none
  value_of (some e) = some e.value

  abbrev pub is_hit : Option Entry → Bool
  is_hit none = false
  is_hit (some e) = true

  abbrev pub next_seq : Cache → ℕ
  next_seq c = (c.seq + 1) % two64

  unfoldable pub get : Key → Time → Time → Cache → Run (Cache × Option Value)
  unfolding access publish
  get key start end' c =
      let seq = next_seq c in
      let touched = touch key start c.store in
      let e = touched.1 in
      do
        s ← access key e c.policy
        let request : Request = record {
          key = key;
          size = size_of e;
          timestamp = start;
          request_id = seq;
          op = op_get;
        }
        let metrics = record_request request (is_hit e) (sub_time end' start) c.metrics
        let c' : Cache = record c { store = touched.0; policy = s; metrics = metrics; seq = seq }
        let event : Event = record {
          seq = seq;
          timestamp = start;
          kind = if is_hit e then type_hit else type_miss;
        }
        c'' ← if sampled seq c.sample_rate then publish event c' else done c'
        done (c'', value_of e)

  -- evictOneLocked, once the policy has named a victim.
  unfoldable pub evict_key : ℕ → Time → Key → p.State → Cache → Run (Cache × Bool)
  unfolding publish
  evict_key seq now victim s c = elim (Store.remove victim c.store).1 [
    | none ↦ do s' ← p.on_remove victim none s; done (record c { policy = some s' }, false)
    | some e ↦ do
      s' ← p.on_remove victim (some e) s
      let c' : Cache = record c {
        store = (Store.remove victim c.store).0;
        policy = some s';
        metrics = record_eviction e.size c.metrics;
      }
      c'' ← publish (record { seq = seq; timestamp = now; kind = type_eviction }) c'
      done (c'', true)
  ]

  unfoldable pub evict_one : ℕ → Time → p.State → Cache → Run (Cache × Bool)
  unfolding evict_key
  evict_one seq now s c = do
    (s', victim) ← p.victim s
    elim victim [
      | none ↦ done (record c { policy = some s' }, false)
      | some k ↦ evict_key seq now k s' c
    ]

  -- What Put does once the store has taken the object.
  unfoldable pub inserted : Key → Int64 → Store × Entry → Cache → Run Cache
  inserted key size r c = do
    s ← with_policy c.policy (p.on_insert key r.1)
    done (record c { store = r.0; policy = s; metrics = record_fetch size c.metrics })

  -- The loop of Put; `none` stands for a nil error. Each round but the last evicts an object.
  unfoldable pub put_loop : ℕ → ℕ → Key → Value → Int64 → Time → Cache → Run (Cache × Option Error)
  unfolding inserted evict_one
  put_loop zero seq key val size now c = out_of_fuel
  put_loop (suc fuel) seq key val size now c = elim (Store.insert key val size now c.store) [
    | ok r ↦ do c' ← inserted key size r c; done (c', none)
    | err capacity_exceeded ↦ elim c.policy [
      | none ↦ done (c, some capacity_exceeded)
      | some s ↦ do
        (c', evicted) ← evict_one seq now s c
        elim evicted [
          | true ↦ put_loop fuel seq key val size now c'
          | false ↦ done (c', some capacity_exceeded)
        ]
    ]
    | err e ↦ done (c, some e)
  ]

  abbrev pub admits : Key → Int64 → Option p.State → Bool
  admits key size none = true
  admits key size (some s) = p.should_admit key size s

  unfoldable pub put : Key → Value → Int64 → Time → Cache → Run (Cache × Option Error)
  put key val size now c =
      let seq = next_seq c in
      let c' : Cache = record c { seq = seq } in
      if admits key size c.policy
      then put_loop (suc (object_count c.store)) seq key val size now c'
      else done (c', none)

  unfoldable pub remove : Key → Cache → Run (Cache × Bool)
  remove key c = elim (Store.remove key c.store).1 [
    | none ↦ done (c, false)
    | some e ↦ do
      s ← with_policy c.policy (p.on_remove key (some e))
      done (record c { store = (Store.remove key c.store).0; policy = s }, true)
  ]

  unfoldable pub clear : Cache → Cache
  clear c = record c {
    store = Store.clear c.store;
    policy = elim c.policy [ none ↦ none | some s ↦ some (p.reset s) ];
  }

  -- SetPolicy. `es` is the order in which the map of the store is iterated. Where the policy is to be
  -- exchanged for another implementation, `p` is `Policy.Either.either` of the two.
  unfoldable pub set_policy : List Entry → Option p.State → Cache → Run Cache
  unfolding policy_name
  set_policy es s c = do
    s' ← with_policy s (λ q. p.rebuild es (p.reset q))
    done (record c { policy = s'; metrics = note_policy (policy_name s') c.metrics })
