-- ===== src/Cache/Threads/Effects.antt =====
-- The steps of the calls in flight on the cache of cache/core.go, by what they do to the counter of
-- operations, to the collector and to the mutex.
use adaptive_caching.Base.{
  ℕ, ◌≡◌, Bool, true, false, List, Option, none, Key, Int64, Yields, Yields-done, Yields-bind, not,
  if◌then◌else◌, done, arith,
}
use adaptive_caching.Types.{Entry, Time, sub_time}
use adaptive_caching.Store.{Store}
use adaptive_caching.Policy.{EvictionPolicy, PolicyName}
use adaptive_caching.Metrics.{
  Collector, record_request, record_fetch, record_eviction, set_policy as note_policy,
}
use adaptive_caching.Cache.{Cache, sampled, admits, is_hit, value_of, clear, next_seq}
use adaptive_caching.Cache.Threads.{
  Object, Pc, get_start, get_lock, get_record, get_publish, got, put_start, put_lock, put_insert,
  put_evicted, put_publish, put_fetch, have_put, remove_lock, removed, clear_lock, cleared,
  switch_lock, switch_note, switched, Shared, advance, ready, get_event, get_request,
}
use adaptive_caching.Cache.Threads.Sections.{
  Untouched, Uncounted, IsRound, Ends, put_round-IsRound, publish_if-Untouched, publish-Untouched,
  get_locked-Untouched, remove-Untouched, switch_locked-Untouched,
}

module _ (p : EvictionPolicy) where
  abbrev pub with_seq : Shared p → ℕ → Shared p
  with_seq m n = record m { core = record m.core { seq = n } }

  abbrev pub with_metrics : Shared p → Collector → Shared p
  with_metrics m k = record m { core = record m.core { metrics = k } }

  -- The steps with their results; `c` is what a part under the mutex or the bus leaves.
  pub data Effect (m : Shared p) : Pc p → Shared p → Pc p → Type 0 where
    numbers_get :
        (key : Key) (start end' : Time)
        → Effect m
            (get_start key start end')
            (with_seq m (next_seq p m.core))
            (get_lock key start end' (next_seq p m.core))
    gets :
        (key : Key) (start end' : Time) (seq : ℕ) (c : Cache p) (e : Option Entry)
        → m.locked ≡ false
        → Untouched p m.core c
        → Effect m
            (get_lock key start end' seq)
            (record m { core = c })
            (get_record key start end' seq e)
    records :
        (key : Key) (start end' : Time) (seq : ℕ) (e : Option Entry)
        → Effect m
            (get_record key start end' seq e)
            (with_metrics m (
              record_request
                (get_request p key start seq e)
                (is_hit p e)
                (sub_time end' start)
                m.core.metrics))
            (get_publish start seq e)
    publishes :
        (start : Time) (seq : ℕ) (c : Cache p) (e : Option Entry)
        → Untouched p m.core c
        → Effect m (get_publish start seq e) (record m { core = c }) (got (value_of p e))
    numbers_put :
        (o : Object)
        → Effect m (put_start o) (with_seq m (next_seq p m.core)) (put_lock o (next_seq p m.core))
    locks :
        (o : Object) (seq : ℕ)
        → m.locked ≡ false
        → Effect m (put_lock o seq) (record m { locked = true }) (put_insert o seq)
    declines :
        (o : Object) (seq : ℕ) → m.locked ≡ false → Effect m (put_lock o seq) m (have_put none)
    rounds :
        (o : Object) (seq : ℕ) (c : Cache p) (kept : Bool) (t : Pc p)
        → Uncounted p m.core c
        → Ends p o seq m.core c kept t
        → Effect m (put_insert o seq) (record { core = c; locked = kept }) t
    counts_eviction :
        (o : Object) (seq : ℕ) (e : Entry)
        → Effect m
            (put_evicted o seq e)
            (with_metrics m (record_eviction e.size m.core.metrics))
            (put_publish o seq)
    publishes_eviction :
        (o : Object) (seq : ℕ) (c : Cache p)
        → Untouched p m.core c
        → Effect m (put_publish o seq) (record m { core = c }) (put_insert o seq)
    fetches :
        (size : Int64)
        → Effect m
            (put_fetch size)
            (record (with_metrics m (record_fetch size m.core.metrics)) { locked = false })
            (have_put none)
    removes :
        (key : Key) (c : Cache p) (found : Bool)
        → m.locked ≡ false
        → Untouched p m.core c
        → Effect m (remove_lock key) (record m { core = c }) (removed found)
    clears : m.locked ≡ false → Effect m clear_lock (record m { core = clear p m.core }) cleared
    switches :
        (entries : Store → List Entry) (s : Option p.State) (c : Cache p) (name : PolicyName)
        → m.locked ≡ false
        → Untouched p m.core c
        → Effect m (switch_lock entries s) (record m { core = c }) (switch_note name)
    notes :
        (name : PolicyName)
        → Effect m (switch_note name) (with_metrics m (note_policy name m.core.metrics)) switched

  -- Every step has one of these effects.
  abbrev pub HasEffect : Pc p → Shared p → Shared p × Pc p → Type 0
  HasEffect t m r = Effect m t r.0 r.1

  free : (b : Bool) → not b ≡ true → b ≡ false
  free b h = ground arith

  admitted :
      (o : Object) (seq : ℕ) (m : Shared p) (b : Bool)
      → m.locked ≡ false
      → Yields
          (if b
            then done (record m { locked = true }, put_insert o seq)
            else done (m, have_put none))
          (HasEffect (put_lock o seq) m)
  admitted o seq m true h = Yields-done (HasEffect (put_lock o seq) m) _ (locks o seq h)
  admitted o seq m false h = Yields-done (HasEffect (put_lock o seq) m) _ (declines o seq h)

  pub advance-Effect :
      (t : Pc p) (m : Shared p) → ready p t m.locked ≡ true → Yields (advance p t m) (HasEffect t m)
  unfolding advance ready
  advance-Effect (get_start key start end') m h =
      Yields-done (HasEffect (get_start key start end') m) _ (numbers_get key start end')
  advance-Effect (get_lock key start end' seq) m h =
      Yields-bind (λ r. Untouched p m.core r.0) (HasEffect (get_lock key start end' seq) m) _ _
        (get_locked-Untouched p key start m.core)
        λ (c, e) u.
          Yields-done (HasEffect (get_lock key start end' seq) m) _
            (gets key start end' seq c e (free _ h) u)
  advance-Effect (get_record key start end' seq e) m h =
      Yields-done (HasEffect (get_record key start end' seq e) m) _ (records key start end' seq e)
  advance-Effect (get_publish start seq e) m h =
      Yields-bind (Untouched p m.core) (HasEffect (get_publish start seq e) m) _ _
        (publish_if-Untouched p (sampled seq m.core.sample_rate) (get_event p start seq e) m.core)
        λ c u. Yields-done (HasEffect (get_publish start seq e) m) _ (publishes start seq c e u)
  advance-Effect (put_start o) m h = Yields-done (HasEffect (put_start o) m) _ (numbers_put o)
  advance-Effect (put_lock o seq) m h =
      admitted o seq m (admits p o.key o.size m.core.policy) (free _ h)
  advance-Effect (put_insert o seq) m h =
      Yields-bind (IsRound p o seq m.core) (HasEffect (put_insert o seq) m) _ _
        (put_round-IsRound p o seq m.core)
        λ r u. Yields-done (HasEffect (put_insert o seq) m) _ (rounds o seq r.0 r.1 r.2 u.0 u.1)
  advance-Effect (put_evicted o seq e) m h =
      Yields-done (HasEffect (put_evicted o seq e) m) _ (counts_eviction o seq e)
  advance-Effect (put_publish o seq) m h =
      Yields-bind (Untouched p m.core) (HasEffect (put_publish o seq) m) _ _
        (publish-Untouched p _ m.core)
        λ c u. Yields-done (HasEffect (put_publish o seq) m) _ (publishes_eviction o seq c u)
  advance-Effect (put_fetch size) m h = Yields-done (HasEffect (put_fetch size) m) _ (fetches size)
  advance-Effect (remove_lock key) m h =
      Yields-bind (λ r. Untouched p m.core r.0) (HasEffect (remove_lock key) m) _ _
        (remove-Untouched p key m.core)
        λ (c, f) u. Yields-done (HasEffect (remove_lock key) m) _ (removes key c f (free _ h) u)
  advance-Effect clear_lock m h = Yields-done (HasEffect clear_lock m) _ (clears (free _ h))
  advance-Effect (switch_lock entries s) m h =
      Yields-bind (λ r. Untouched p m.core r.0) (HasEffect (switch_lock entries s) m) _ _
        (switch_locked-Untouched p (entries m.core.store) s m.core)
        λ (c, name) u.
          Yields-done (HasEffect (switch_lock entries s) m) _
            (switches entries s c name (free _ h) u)
  advance-Effect (switch_note name) m h =
      Yields-done (HasEffect (switch_note name) m) _ (notes name)
  advance-Effect t m h = absurd (ground arith)
