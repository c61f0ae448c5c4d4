-- ===== src/Cache/Threads/Exclusion.antt =====
-- The mutex of cache/core.go among calls in flight.
use adaptive_caching.Base.{ℕ, ◌+◌, ◌≡◌, sym, ◌∙◌, Bool, true, false, List, [], arith, ap}
use adaptive_caching.Policy.{EvictionPolicy}
use adaptive_caching.Cache.Threads.{
  Pc, put_insert, put_evicted, put_publish, put_fetch, Shared, System, Reach, is_start,
}
use adaptive_caching.Cache.Threads.Tally.{Follows, Follows-Reach, total}
use adaptive_caching.Cache.Threads.Sections.{stores, evicts, fails}
use adaptive_caching.Cache.Threads.Effects.{Effect, advance-Effect, locks, rounds, fetches}

abbrev pub bit : Bool → ℕ
bit true = 1
bit false = 0

-- There is room for one.
only : (b : Bool) (n : ℕ) → n + 1 ≡ bit b → n ≡ 0
only true n e = omega arith
only false n e = omega arith

module _ (p : EvictionPolicy) where
  -- Between the Lock and the Unlock of Put.
  abbrev pub holds : Pc p → ℕ
  holds (put_insert o seq) = 1
  holds (put_evicted o seq e) = 1
  holds (put_publish o seq) = 1
  holds (put_fetch size) = 1
  holds t = 0

  -- So many calls hold the mutex as its state says.
  abbrev pub IsExclusive : ℕ → Shared p → Type 0
  IsExclusive n m = n ≡ bit m.locked

  Effect-IsExclusive :
      {m m' : Shared p} {t t' : Pc p}
      → Effect p m t m' t'
      → (n : ℕ) → IsExclusive (n + holds t) m
      → IsExclusive (n + holds t') m'
  Effect-IsExclusive (locks o seq h) n e = omega (arith, ap bit h)
  Effect-IsExclusive {m = m} (rounds o seq c _ _ u (stores l)) n e =
      omega (arith, only m.locked n e)
  Effect-IsExclusive {m = m} (rounds o seq c _ _ u (evicts x l)) n e =
      omega (arith, only m.locked n e)
  Effect-IsExclusive {m = m} (rounds o seq c _ _ u (fails x l)) n e =
      omega (arith, only m.locked n e)
  Effect-IsExclusive {m = m} (fetches size) n e = omega (arith, only m.locked n e)
  Effect-IsExclusive f n e = e

  holds-Follows : Follows p holds IsExclusive
  holds-Follows t m rdy r ran = Effect-IsExclusive (advance-Effect p t m rdy r ran)

  start_free : (t : Pc p) → is_start p t ≡ true → holds t ≡ 0
  unfolding is_start
  start_free t h = ground arith

  -- However the calls interleave, from a moment when none is in flight and the mutex is free: the
  -- mutex is held by one call, or it is free and no call is between Lock and Unlock.
  pub Reach-IsExclusive :
      {Allowed : List (Pc p) → Pc p → Type 0} (s s' : System p)
      → s.calls ≡ []
      → s.shared.locked ≡ false
      → Reach p Allowed s s'
      → IsExclusive (total holds s'.calls) s'.shared
  Reach-IsExclusive s s' none_yet unlocked r =
      Follows-Reach p holds IsExclusive holds-Follows start_free r
        (ap (total holds) none_yet ∙ sym (ap bit unlocked))
