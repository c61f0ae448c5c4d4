-- ===== src/Cache/Threads.antt =====
-- cache/core.go with calls in flight side by side. A call is cut where another goroutine can come
-- between: the atomic counter, each part under the core's mutex, each call of the collector and of
-- the bus (which have locks of their own). The store and the policy are used under the mutex only.
pub mod Tally
pub mod Sections
pub mod Effects
pub mod Exclusion
pub mod Locked
pub mod Invariant
pub mod Progress
pub mod Work
pub mod Solo
pub mod Rounds
pub mod Whole
pub mod Counting
pub mod Names
pub mod Naming
use adaptive_caching.Base.{
  ℕ, ◌≡◌, Bool, true, false, not, List, [], ◌∷◌, ◌++◌, Option, none, some, Key, Int64,
  if◌then◌else◌, Run, done, ◌>>=◌,
}
use adaptive_caching.Types.{Entry, Value, Time, Request, op_get, sub_time}
use adaptive_caching.Store
use adaptive_caching.Store.{Store, Error, Result, ok, err, capacity_exceeded, touch}
use adaptive_caching.Events.{Event, type_hit, type_miss, type_eviction}
use adaptive_caching.Policy.{EvictionPolicy, PolicyName}
use adaptive_caching.Metrics.{
  record_request, record_fetch, record_eviction, set_policy as note_policy,
}
use adaptive_caching.Cache.{
  Cache, publish, access, with_policy, size_of, value_of, is_hit, next_seq, sampled, admits,
  policy_name, remove, clear,
}

-- What Put is called with.
pub record Object : Type 0 where
  pub key : Key
  pub val : Value
  pub size : Int64
  pub now : Time

module _ (p : EvictionPolicy) where
  -- Where a call stands, with the local variables that are live there. A name that ends in `lock`
  -- waits for the mutex; a name in the past tense has returned.
  pub data Pc : Type 0 where
    get_start : Key → (start end' : Time) → Pc
    get_lock : Key → (start end' : Time) → (seq : ℕ) → Pc
    get_record : Key → (start end' : Time) → (seq : ℕ) → Option Entry → Pc
    get_publish : (start : Time) → (seq : ℕ) → Option Entry → Pc
    got : Option Value → Pc
    put_start : Object → Pc
    put_lock : Object → (seq : ℕ) → Pc
    put_insert : Object → (seq : ℕ) → Pc  -- head of the loop
    put_evicted : Object → (seq : ℕ) → Entry → Pc  -- before RecordEviction
    put_publish : Object → (seq : ℕ) → Pc
    put_fetch : Int64 → Pc  -- before RecordFetch
    have_put : Option Error → Pc
    remove_lock : Key → Pc
    removed : Bool → Pc
    clear_lock : Pc
    cleared : Pc
    switch_lock : (entries : Store → List Entry) → Option p.State → Pc
    switch_note : PolicyName → Pc  -- before the collector is told
    switched : Pc

  -- The core, and whether its mutex is held.
  pub record Shared : Type 0 where
    pub core : Cache p
    pub locked : Bool

  abbrev pub get_request : Key → Time → ℕ → Option Entry → Request
  get_request key start seq e = record {
    key = key;
    size = size_of p e;
    timestamp = start;
    request_id = seq;
    op = op_get;
  }

  abbrev pub get_event : Time → ℕ → Option Entry → Event
  get_event start seq e = record {
    seq = seq;
    timestamp = start;
    kind = if is_hit p e then type_hit else type_miss;
  }

  -- The part of Get under the mutex.
  unfoldable pub get_locked : Key → Time → Cache p → Run (Cache p × Option Entry)
  unfolding access
  get_locked key start c =
      let touched = touch key start c.store in
      do
        s ← access p key touched.1 c.policy
        done (record c { store = touched.0; policy = s }, touched.1)

  unfoldable pub publish_if : Bool → Event → Cache p → Run (Cache p)
  publish_if true e c = publish p e c
  publish_if false e c = done c

  -- evictOneLocked for the victim `k`, as far as the store and the policy go.
  unfoldable pub take_found :
      Key → p.State → Store × Option Entry → Cache p → Run (Cache p × Option Entry)
  take_found k s (store, none) c = do
    s' ← p.on_remove k none s
    done (record c { policy = some s' }, none)
  take_found k s (store, some e) c = do
    s' ← p.on_remove k (some e) s
    done (record c { store = store; policy = some s' }, some e)

  unfoldable pub take_chosen : p.State × Option Key → Cache p → Run (Cache p × Option Entry)
  unfolding take_found
  take_chosen (s, none) c = done (record c { policy = some s }, none)
  take_chosen (s, some k) c = take_found k s (Store.remove k c.store) c

  -- What a round of Put leaves, whether it keeps the mutex, and where the call then stands.
  abbrev pub RoundEnd : Type 0
  RoundEnd = Cache p × Bool × Pc

  abbrev pub taken : Object → ℕ → Cache p × Option Entry → RoundEnd
  taken o seq (c, none) = (c, false, have_put (some capacity_exceeded))
  taken o seq (c, some e) = (c, true, put_evicted o seq e)

  unfoldable pub make_room : Object → ℕ → Cache p → Option p.State → Run RoundEnd
  unfolding take_chosen
  make_room o seq c none = done (c, false, have_put (some capacity_exceeded))
  make_room o seq c (some s) = do v ← p.victim s; r ← take_chosen v c; done (taken o seq r)

  unfoldable pub after_insert : Object → ℕ → Cache p → Result (Store × Entry) → Run RoundEnd
  unfolding make_room
  after_insert o seq c (ok (store, e)) = do
    s ← with_policy c.policy (p.on_insert o.key e)
    done (record c { store = store; policy = s }, true, put_fetch o.size)
  after_insert o seq c (err capacity_exceeded) = make_room o seq c c.policy
  after_insert o seq c (err e) = done (c, false, have_put (some e))

  -- A round of the loop of Put, up to the first call of the collector.
  unfoldable pub put_round : Object → ℕ → Cache p → Run RoundEnd
  unfolding after_insert
  put_round o seq c = after_insert o seq c (Store.insert o.key o.val o.size o.now c.store)

  -- The part of SetPolicy under the mutex.
  unfoldable pub switch_locked : List Entry → Option p.State → Cache p → Run (Cache p × PolicyName)
  unfolding policy_name
  switch_locked es s c = do
    s' ← with_policy s (λ q. p.rebuild es (p.reset q))
    done (record c { policy = s' }, policy_name p s')

  -- The next step of a call. A part under the mutex that calls neither the collector nor the bus is
  -- one step, which takes the mutex and gives it back.
  unfoldable pub advance : Pc → Shared → Run (Shared × Pc)
  unfolding get_locked publish_if put_round switch_locked remove clear
  advance (get_start key start end') m =
      let seq = next_seq p m.core in
      done (record m { core = record m.core { seq = seq } }, get_lock key start end' seq)
  advance (get_lock key start end' seq) m = do
    (c, e) ← get_locked key start m.core
    done (record m { core = c }, get_record key start end' seq e)
  advance (get_record key start end' seq e) m =
      let metrics =
        record_request (get_request key start seq e) (is_hit p e) (sub_time end' start)
          m.core.metrics in
      done (record m { core = record m.core { metrics = metrics } }, get_publish start seq e)
  advance (get_publish start seq e) m = do
    c ← publish_if (sampled seq m.core.sample_rate) (get_event start seq e) m.core
    done (record m { core = c }, got (value_of p e))
  advance (put_start o) m =
      let seq = next_seq p m.core in
      done (record m { core = record m.core { seq = seq } }, put_lock o seq)
  advance (put_lock o seq) m =
      if admits p o.key o.size m.core.policy
      then done (record m { locked = true }, put_insert o seq)
      else done (m, have_put none)
  advance (put_insert o seq) m = do
    r ← put_round o seq m.core
    done (record { core = r.0; locked = r.1 }, r.2)
  advance (put_evicted o seq e) m =
      let metrics = record_eviction e.size m.core.metrics in
      done (record m { core = record m.core { metrics = metrics } }, put_publish o seq)
  advance (put_publish o seq) m = do
    c ← publish p (record { seq = seq; timestamp = o.now; kind = type_eviction }) m.core
    done (record m { core = c }, put_insert o seq)
  advance (put_fetch size) m =
      let metrics = record_fetch size m.core.metrics in
      done (record { core = record m.core { metrics = metrics }; locked = false }, have_put none)
  advance (remove_lock key) m = do
    (c, found) ← remove p key m.core
    done (record m { core = c }, removed found)
  advance clear_lock m = done (record m { core = clear p m.core }, cleared)
  advance (switch_lock entries s) m = do
    (c, name) ← switch_locked (entries m.core.store) s m.core
    done (record m { core = c }, switch_note name)
  advance (switch_note name) m =
      let metrics = note_policy name m.core.metrics in
      done (record m { core = record m.core { metrics = metrics } }, switched)
  advance t m = done (m, t)

  -- A call that has returned makes no step; one that waits for the mutex makes none while it is held.
  unfoldable pub ready : Pc → Bool → Bool
  ready (got v) b = false
  ready (have_put e) b = false
  ready (removed f) b = false
  ready cleared b = false
  ready switched b = false
  ready (get_lock key start end' seq) b = not b
  ready (put_lock o seq) b = not b
  ready (remove_lock key) b = not b
  ready clear_lock b = not b
  ready (switch_lock entries s) b = not b
  ready t b = true

  unfoldable pub is_start : Pc → Bool
  is_start (get_start key start end') = true
  is_start (put_start o) = true
  is_start (remove_lock key) = true
  is_start clear_lock = true
  is_start (switch_lock entries s) = true
  is_start t = false

  pub record System : Type 0 where
    pub shared : Shared
    pub calls : List Pc

  -- A new call comes in, if it is allowed, or one that is in flight makes its next step.
  pub data Step (Allowed : List Pc → Pc → Type 0) (s : System) : System → Type 0 where
    begins :
        (t : Pc)
        → is_start t ≡ true
        → Allowed s.calls t
        → Step Allowed s (record s { calls = t ∷ s.calls })
    moves :
        (before after : List Pc) (t : Pc) (m : Shared) (t' : Pc)
        → s.calls ≡ before ++ t ∷ after
        → ready t s.shared.locked ≡ true
        → advance t s.shared ≡ done (m, t')
        → Step Allowed s (record { shared = m; calls = before ++ t' ∷ after })

  pub data Reach (Allowed : List Pc → Pc → Type 0) (s : System) : System → Type 0 where
    here : Reach Allowed s s
    next : {s' s'' : System} → Reach Allowed s s' → Step Allowed s' s'' → Reach Allowed s s''
