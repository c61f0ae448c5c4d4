-- ===== src/Cache/Threads/Counting.antt =====
-- The counters of cache/core.go and metrics/collector.go among calls in flight.
use adaptive_caching.Base.{
  ℕ, ◌+◌, ◌%◌, ◌≡◌, sym, ◌∙◌, Bool, true, false, List, [], arith, ap, two64, Int64,
}
use adaptive_caching.Policy.{EvictionPolicy}
use adaptive_caching.Metrics.{
  Collector, record_request, record_fetch, record_eviction, set_policy as note_policy,
}
use adaptive_caching.Types.{Request, sub_time}
use adaptive_caching.Cache.{clear, is_hit}
use adaptive_caching.Cache.Threads.{
  Pc, get_lock, get_record, get_request, get_publish, got, put_lock, put_insert, put_evicted,
  put_publish, put_fetch, have_put, Shared, System, Reach, is_start,
}
use adaptive_caching.Cache.Threads.Tally.{Follows-Reach, total}
use adaptive_caching.Cache.Threads.Sections.{stores, evicts, fails}
use adaptive_caching.Cache.Threads.Effects.{
  Effect, advance-Effect, numbers_get, gets, records, publishes, rounds, publishes_eviction,
  removes, switches, numbers_put,
}

recorded_next :
    (r : Request) (hit : Bool) (latency : Int64) (c : Collector) (n : ℕ)
    → c.total ≡ (n + 0) % two64
    → (record_request r hit latency c).total ≡ (n + 1) % two64
unfolding record_request
recorded_next r true latency c n e = omega arith
recorded_next r false latency c n e = omega arith

module _ (p : EvictionPolicy) where
  -- A Get or a Put that has its number.
  abbrev pub numbered : Pc p → ℕ
  numbered (get_lock key start end' seq) = 1
  numbered (get_record key start end' seq e) = 1
  numbered (get_publish start seq e) = 1
  numbered (got v) = 1
  numbered (put_lock o seq) = 1
  numbered (put_insert o seq) = 1
  numbered (put_evicted o seq e) = 1
  numbered (put_publish o seq) = 1
  numbered (put_fetch size) = 1
  numbered (have_put e) = 1
  numbered t = 0

  -- A Get that has told the collector.
  abbrev pub recorded : Pc p → ℕ
  recorded (get_publish start seq e) = 1
  recorded (got v) = 1
  recorded t = 0

  abbrev pub IsNumbered : ℕ → Shared p → Type 0
  IsNumbered n m = m.core.seq ≡ n % two64

  abbrev pub IsRecorded : ℕ → Shared p → Type 0
  IsRecorded n m = m.core.metrics.total ≡ n % two64

  Effect-IsNumbered :
      {m m' : Shared p} {t t' : Pc p}
      → Effect p m t m' t'
      → (n : ℕ) → IsNumbered (n + numbered t) m
      → IsNumbered (n + numbered t') m'
  unfolding clear
  Effect-IsNumbered (numbers_get key start end') n e = omega arith
  Effect-IsNumbered (numbers_put o) n e = omega arith
  Effect-IsNumbered (gets key start end' seq c x h u) n e = u.0 ∙ e
  Effect-IsNumbered (publishes start seq c x u) n e = u.0 ∙ e
  Effect-IsNumbered (rounds o seq c _ _ u (stores l)) n e = u.0 ∙ e
  Effect-IsNumbered (rounds o seq c _ _ u (evicts x l)) n e = u.0 ∙ e
  Effect-IsNumbered (rounds o seq c _ _ u (fails x l)) n e = u.0 ∙ e
  Effect-IsNumbered (publishes_eviction o seq c u) n e = u.0 ∙ e
  Effect-IsNumbered (removes key c found h u) n e = u.0 ∙ e
  Effect-IsNumbered (switches entries s c name h u) n e = u.0 ∙ e
  Effect-IsNumbered f n e = e

  Effect-IsRecorded :
      {m m' : Shared p} {t t' : Pc p}
      → Effect p m t m' t'
      → (n : ℕ) → IsRecorded (n + recorded t) m
      → IsRecorded (n + recorded t') m'
  unfolding clear record_request record_fetch record_eviction note_policy
  Effect-IsRecorded (gets key start end' seq c x h u) n e = ap (λ k. k.total) u.1 ∙ e
  Effect-IsRecorded (records key start end' seq x) n e =
      recorded_next (get_request p key start seq x) (is_hit p x) (sub_time end' start) _ n e
  Effect-IsRecorded (publishes start seq c x u) n e = ap (λ k. k.total) u.1 ∙ e
  Effect-IsRecorded (rounds o seq c _ _ u (stores l)) n e = ap (λ k. k.total) u.1 ∙ e
  Effect-IsRecorded (rounds o seq c _ _ u (evicts x l)) n e = ap (λ k. k.total) u.1 ∙ e
  Effect-IsRecorded (rounds o seq c _ _ u (fails x l)) n e = ap (λ k. k.total) u.1 ∙ e
  Effect-IsRecorded (publishes_eviction o seq c u) n e = ap (λ k. k.total) u.1 ∙ e
  Effect-IsRecorded (removes key c found h u) n e = ap (λ k. k.total) u.1 ∙ e
  Effect-IsRecorded (switches entries s c name h u) n e = ap (λ k. k.total) u.1 ∙ e
  Effect-IsRecorded f n e = e

  started : (t : Pc p) → is_start p t ≡ true → (numbered t ≡ 0) × (recorded t ≡ 0)
  unfolding is_start
  started t h = ground arith

  -- However the calls interleave, from a moment when none is in flight and both counters are 0: the
  -- counter of operations is the number of the Gets and Puts that have their number, and the
  -- collector's total is the number of the Gets that have told it, both modulo 2 ^ 64. No update is
  -- lost.
  pub Reach-IsNumbered :
      {Allowed : List (Pc p) → Pc p → Type 0} (s s' : System p)
      → s.calls ≡ []
      → s.shared.core.seq ≡ 0
      → s.shared.core.metrics.total ≡ 0
      → Reach p Allowed s s'
      → (s'.shared.core.seq ≡ total numbered s'.calls % two64)
        × (s'.shared.core.metrics.total ≡ total recorded s'.calls % two64)
  Reach-IsNumbered s s' none_yet no_seq no_total r = (
    Follows-Reach p numbered IsNumbered
        (λ t m rdy a ran. Effect-IsNumbered (advance-Effect p t m rdy a ran))
        (λ t h. (started t h).0) r (no_seq ∙ sym (ap (λ l. total numbered l % two64) none_yet)),
    Follows-Reach p recorded IsRecorded
        (λ t m rdy a ran. Effect-IsRecorded (advance-Effect p t m rdy a ran))
        (λ t h. (started t h).1) r (no_total ∙ sym (ap (λ l. total recorded l % two64) none_yet)),
  )
