-- ===== src/Cache/Threads/Work.antt =====
-- The work that is left to the calls in flight on the cache of cache/core.go.
use adaptive_caching.Base.{ℕ, suc, ◌+◌, ◌*◌, ◌≡◌, true, List, ◌∷◌, ◌++◌, done}
use adaptive_caching.Store
use adaptive_caching.Store.{object_count}
use adaptive_caching.Store.Invariant as StoreInvariant
use adaptive_caching.Policy.{EvictionPolicy}
use adaptive_caching.Cache.Threads.{
  Pc, get_start, get_lock, get_record, get_publish, put_start, put_lock, put_insert, put_evicted,
  put_publish, put_fetch, remove_lock, clear_lock, switch_lock, switch_note, Shared, System,
  advance, ready,
}
use adaptive_caching.Cache.Threads.Tally.{total}

module _ (p : EvictionPolicy) where
  -- A bound on the steps that are left to a call. An object that Put may yet add counts for four:
  -- to evict it takes three steps.
  unfoldable pub rank : Pc p → ℕ
  rank (get_start key start end') = 4
  rank (get_lock key start end' seq) = 3
  rank (get_record key start end' seq e) = 2
  rank (get_publish start seq e) = 1
  rank (put_start o) = 8
  rank (put_lock o seq) = 7
  rank (put_insert o seq) = 6
  rank (put_evicted o seq e) = 8
  rank (put_publish o seq) = 7
  rank (put_fetch size) = 1
  rank (remove_lock key) = 1
  rank clear_lock = 1
  rank (switch_lock entries s) = 2
  rank (switch_note name) = 1
  rank t = 0

  abbrev objects : Shared p → ℕ
  objects m = object_count m.core.store

  unfoldable pub work : System p → ℕ
  unfolding rank
  work s = total (rank) s.calls + 4 * object_count s.shared.core.store

  -- `n` steps of calls in flight, one after the other, no new call coming in.
  pub data Moves : ℕ → System p → System p → Type 0 where
    stay : {s : System p} → Moves 0 s s
    move :
        {n : ℕ} {s s' : System p}
        → Moves n s s'
        → (before after : List (Pc p)) (t : Pc p) (m : Shared p) (t' : Pc p)
        → s'.calls ≡ before ++ t ∷ after
        → ready p t s'.shared.locked ≡ true
        → advance p t s'.shared ≡ done (m, t')
        → Moves (suc n) s (record { shared = m; calls = before ++ t' ∷ after })
