-- ===== src/Cache/Threads/Invariant.antt =====
-- The invariant of the cache of cache/core.go among calls in flight.
use adaptive_caching.Base.{
  ℕ, ◌≡◌, refl, sym, subst, Bool, true, false, List, [], ◌∷◌, ◌++◌, none, done, Returns,
  Returns-Yields, if◌then◌else◌,
}
use adaptive_caching.Store.{Store}
use adaptive_caching.Store.Invariant as StoreInvariant
use adaptive_caching.Events.{Event, type_eviction}
use adaptive_caching.Policy.{EvictionPolicy, View, IsLawful}
use adaptive_caching.Metrics.{Collector}
use adaptive_caching.Cache.{Cache, value_of, sampled, admits}
use adaptive_caching.Cache.Invariant.{IsValid, publish-IsValid}
use adaptive_caching.Cache.Serving.{remove-IsValid, clear-IsValid}
use adaptive_caching.Cache.Switching.{IsIteration}
use adaptive_caching.Cache.Threads.{
  Object, Pc, get_start, get_lock, get_record, get_publish, got, put_start, put_lock, put_insert,
  put_evicted, put_publish, put_fetch, have_put, remove_lock, removed, clear_lock, switch_lock,
  switch_note, Shared, System, Step, begins, moves, Reach, here, next, advance, get_event,
}
use adaptive_caching.Cache.Threads.Sections.{Ends, stores, evicts, fails, put_round-IsRound}
use adaptive_caching.Cache.Threads.Locked.{
  IsStorable, get_locked-IsValid, publish_if-IsValid, put_round-IsValid, switch_locked-IsValid,
}

module _ {p : EvictionPolicy} {view : View p} (law : IsLawful p view) where
  -- What the arguments of a call have to be. A map is iterated in an order that lists it.
  abbrev pub IsProper : Pc p → Type 0
  IsProper (put_start o) = IsStorable law o
  IsProper (put_lock o seq) = IsStorable law o
  IsProper (put_insert o seq) = IsStorable law o
  IsProper (put_evicted o seq e) = IsStorable law o
  IsProper (put_publish o seq) = IsStorable law o
  IsProper (switch_lock entries s) =
      (s' : Store) → StoreInvariant.IsValid s' → IsIteration (entries s') s'
  IsProper t = Unit

  -- The core is valid, and the call stands at a point with proper arguments.
  abbrev pub IsFine : Shared p × Pc p → Type 0
  IsFine r = IsValid law r.0.core × IsProper r.1

  Ends-IsProper :
      {o : Object} {seq : ℕ} {c c' : Cache p} {kept : Bool} {t : Pc p}
      → Ends p o seq c c' kept t
      → IsStorable law o
      → IsProper t
  Ends-IsProper (stores l) h = tt
  Ends-IsProper (evicts e l) h = h
  Ends-IsProper (fails e l) h = tt

  admitted-IsFine :
      (o : Object) (seq : ℕ) (m : Shared p) (b : Bool)
      → IsValid law m.core
      → IsStorable law o
      → Returns
          (if b
            then done (record m { locked = true }, put_insert o seq)
            else done (m, have_put none))
          IsFine
  admitted-IsFine o seq m true v h = (_, refl, (v, h))
  admitted-IsFine o seq m false v h = (_, refl, (v, tt))

  -- The counters of a valid cache, replaced.
  recount :
      (c : Cache p) (n : ℕ) (k : Collector)
      → IsValid law c
      → IsValid law (record c { metrics = k; seq = n })
  recount c n k v = record {
    store_valid = v.store_valid;
    fits = v.fits;
    resident = v.resident;
    bus_valid = v.bus_valid;
  }

  -- A step of a call returns, and keeps the core valid.
  pub advance-IsFine :
      (t : Pc p) (m : Shared p) → IsValid law m.core → IsProper t → Returns (advance p t m) IsFine
  unfolding advance
  advance-IsFine (get_start key start end') m v h = (_, refl, (recount m.core _ _ v, tt))
  advance-IsFine (get_lock key start end' seq) m v h =
      let (r, ran, v') = get_locked-IsValid law key start m.core v in
      ((record m { core = r.0 }, get_record key start end' seq r.1), rw ran refl, (v', tt))
  advance-IsFine (get_record key start end' seq e) m v h = (_, refl, (recount m.core _ _ v, tt))
  advance-IsFine (get_publish start seq e) m v h =
      let (c, ran, v') =
        publish_if-IsValid law (sampled seq m.core.sample_rate) (get_event p start seq e) m.core
          v in
      ((record m { core = c }, got (value_of p e)), rw ran refl, (v', tt))
  advance-IsFine (put_start o) m v h = (_, refl, (recount m.core _ _ v, h))
  advance-IsFine (put_lock o seq) m v h =
      admitted-IsFine o seq m (admits p o.key o.size m.core.policy) v h
  advance-IsFine (put_insert o seq) m v h =
      let (r, ran, v') = put_round-IsValid law o seq m.core v h in
      (
        (record { core = r.0; locked = r.1 }, r.2),
        rw ran refl,
        (v', Ends-IsProper (put_round-IsRound p o seq m.core r ran).1 h),
      )
  advance-IsFine (put_evicted o seq e) m v h = (_, refl, (recount m.core _ _ v, h))
  advance-IsFine (put_publish o seq) m v h =
      let event : Event = record { seq = seq; timestamp = o.now; kind = type_eviction } in
      let (c, ran, rest) = publish-IsValid law event m.core v in
      ((record m { core = c }, put_insert o seq), rw ran refl, (rest.0, h))
  advance-IsFine (put_fetch size) m v h = (_, refl, (recount m.core _ _ v, tt))
  advance-IsFine (remove_lock key) m v h =
      let (r, ran, rest) = remove-IsValid law key m.core v in
      ((record m { core = r.0 }, removed r.1), rw ran refl, (rest.0, tt))
  advance-IsFine clear_lock m v h = (_, refl, ((clear-IsValid law m.core v).0, tt))
  advance-IsFine (switch_lock entries s) m v h =
      let (r, ran, v') =
        switch_locked-IsValid law (entries m.core.store) s m.core v
          (h m.core.store v.store_valid) in
      ((record m { core = r.0 }, switch_note r.1), rw ran refl, (v', tt))
  advance-IsFine (switch_note name) m v h = (_, refl, (recount m.core _ _ v, tt))
  advance-IsFine t m v h = (_, refl, (v, h))

  abbrev pub AllProper : List (Pc p) → Type 0
  AllProper [] = Unit
  AllProper (t ∷ ts) = IsProper t × AllProper ts

  AllProper-middle :
      (before after : List (Pc p)) (t : Pc p) → AllProper (before ++ t ∷ after) → IsProper t
  AllProper-middle [] after t h = h.0
  AllProper-middle (x ∷ before) after t h = AllProper-middle before after t h.1

  AllProper-replace :
      (before after : List (Pc p)) (t t' : Pc p)
      → AllProper (before ++ t ∷ after)
      → IsProper t'
      → AllProper (before ++ t' ∷ after)
  AllProper-replace [] after t t' h h' = (h', h.1)
  AllProper-replace (x ∷ before) after t t' h h' = (h.0, AllProper-replace before after t t' h.1 h')

  -- The core is valid, and so are the arguments of the calls in flight.
  pub record IsSound (s : System p) : Type 0 where
    pub valid : IsValid law s.shared.core
    pub proper : AllProper s.calls

  pub Step-IsSound :
      {Allowed : List (Pc p) → Pc p → Type 0} {s s' : System p}
      → ((l : List (Pc p)) (t : Pc p) → Allowed l t → IsProper t)
      → Step p Allowed s s'
      → IsSound s
      → IsSound s'
  Step-IsSound ok' (begins t st a) h = record { valid = h.valid; proper = (ok' _ t a, h.proper) }
  Step-IsSound {s = s} ok' (moves before after t m t' e rdy ran) h =
      let all = subst AllProper e h.proper in
      let fine =
        Returns-Yields IsFine (advance p t s.shared)
          (advance-IsFine t s.shared h.valid (AllProper-middle before after t all)) (m, t') ran in
      record { valid = fine.0; proper = AllProper-replace before after t t' all fine.1 }

  -- However the calls of Get, Put, Remove, Clear and SetPolicy interleave, at every point, also in
  -- the middle of calls, the store's counters are exact and within the capacity, and the policy
  -- tracks exactly the resident keys, if that is so when no call is in flight. The objects that are
  -- put have sizes that are int64 and keys that the policy can hold.
  pub Reach-IsSound :
      {Allowed : List (Pc p) → Pc p → Type 0} (s s' : System p)
      → ((l : List (Pc p)) (t : Pc p) → Allowed l t → IsProper t)
      → IsValid law s.shared.core
      → s.calls ≡ []
      → Reach p Allowed s s'
      → IsSound s'
  Reach-IsSound s _ ok' v none_yet here = record {
    valid = v;
    proper = subst AllProper (sym none_yet) tt;
  }
  Reach-IsSound s _ ok' v none_yet (next r st) =
      Step-IsSound ok' st (Reach-IsSound s _ ok' v none_yet r)
