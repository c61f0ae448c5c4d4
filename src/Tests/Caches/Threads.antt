-- ===== src/Tests/Caches/Threads.antt =====
-- A Put and a Get in flight on the cache of cache/core.go, and two SetPolicy.
use adaptive_caching.Base.{
  ℕ, ◌%◌, ◌≡◌, refl, true, false, List, [], ◌∷◌, none, some, arith, two64, done, Returns,
}
use adaptive_caching.Policy.{lru, no_policy}
use adaptive_caching.Metrics.{set_policy as note_policy}
use adaptive_caching.Policy.Lru.{lru_policy, new_lru}
use adaptive_caching.Policy.Lru.Contract.{lru-IsLawful}
use adaptive_caching.Cache.{Cache, policy_name}
use adaptive_caching.Cache.Threads.{
  Object, Pc, switch_lock, switch_note, switched, switch_locked, get_start, get_lock, put_start,
  put_lock, put_insert, System, begins, moves, Reach, here, next, advance, ready, is_start,
}
use adaptive_caching.Cache.Threads.Tally.{total}
use adaptive_caching.Cache.Threads.Counting.{numbered, recorded, Reach-IsNumbered}
use adaptive_caching.Cache.Threads.Invariant.{IsProper, IsSound, Reach-IsSound}
use adaptive_caching.Cache.Threads.Work.{Moves, stay, move}
use adaptive_caching.Cache.Threads.Names.{KeepsName}
use adaptive_caching.Cache.Threads.Naming.{OneSwitch, Reach-named}
use adaptive_caching.Cache.Threads.Solo.{steps, unlocked, whole}
use adaptive_caching.Cache.Threads.Whole.{steps-whole}
use adaptive_caching.Tests.Caches.{program, start, start-IsValid, small_value}

abbrev Call : Type 0
Call = Pc lru_policy

abbrev object : Object
object = record { key = "a"; val = small_value; size = 60; now = 7 }

abbrev IsAllowed : List Call → Call → Type 0
IsAllowed l t = IsProper lru-IsLawful t

abbrev idle : System lru_policy
idle = record { shared = record { core = start; locked = false }; calls = [] }

abbrev counted : ℕ → Cache lru_policy
counted n = record start { seq = n }

-- The Put holds the mutex; the Get waits for it.
abbrev busy : System lru_policy
busy = record {
  shared = record { core = counted 2; locked = true };
  calls = get_lock "a" 10 12 2 ∷ put_insert object 1 ∷ [];
}

both : System lru_policy
both = record { shared = idle.shared; calls = get_start "a" 10 12 ∷ put_start object ∷ [] }

both_reached : Reach lru_policy IsAllowed idle both
unfolding both is_start program
both_reached =
    next (next here (begins (put_start object) refl (omega arith, tt)))
      (begins (get_start "a" 10 12) refl tt)

busy_reached : Reach lru_policy IsAllowed idle busy
unfolding both advance ready program
busy_reached =
    next
      (next
        (next both_reached
          (moves (get_start "a" 10 12 ∷ []) [] (put_start object) _ _ refl refl refl))
        (moves (get_start "a" 10 12 ∷ []) [] (put_lock object 1) _ _ refl refl refl))
      (moves [] (put_insert object 1 ∷ []) (get_start "a" 10 12) _ _ refl refl refl)

Reach-IsSound_example : IsSound lru-IsLawful busy
Reach-IsSound_example =
    Reach-IsSound lru-IsLawful idle busy (λ l t a. a) start-IsValid refl busy_reached

Reach-IsNumbered_example :
    (busy.shared.core.seq ≡ total (numbered lru_policy) busy.calls % two64)
    × (busy.shared.core.metrics.total ≡ total (recorded lru_policy) busy.calls % two64)
unfolding program
Reach-IsNumbered_example = Reach-IsNumbered lru_policy idle busy refl refl refl busy_reached

steps-whole_example : Returns (whole lru_policy (put_start object) start) (λ r.
    (n : ℕ) × (steps lru_policy n (put_start object) (unlocked lru_policy start)
      ≡ done (unlocked lru_policy r.0, r.1)))
unfolding is_start
steps-whole_example =
    steps-whole lru-IsLawful (put_start object) start start-IsValid refl (omega arith, tt)

-- Two calls of SetPolicy, to LRU and to none. The first leaves the mutex first and tells the
-- collector last: LRU is gone, and the collector says that it is installed.
abbrev to_lru : Call
to_lru = switch_lock (λ _. []) (some new_lru)

abbrev to_none : Call
to_none = switch_lock (λ _. []) none

abbrev bare_start : Cache lru_policy
bare_start = record start { policy = none }

crossed : System lru_policy
unfolding program
crossed = record {
  shared = record {
    core = record bare_start { metrics = note_policy lru (note_policy no_policy start.metrics) };
    locked = false;
  };
  calls = switched ∷ switched ∷ [];
}

crossed_reached :
    Moves lru_policy 4
      (record { shared = record { core = start; locked = false }; calls = to_lru ∷ to_none ∷ [] })
      crossed
unfolding crossed advance ready switch_locked program
crossed_reached =
    move
      (move
        (move (move stay [] (to_none ∷ []) to_lru _ _ refl refl refl) (switch_note lru ∷ []) []
          to_none _ _ refl refl refl)
        (switch_note lru ∷ []) [] (switch_note no_policy) _ _ refl refl refl)
      [] (switched ∷ []) (switch_note lru) _ _ refl refl refl

collector_is_wrong :
    (policy_name lru_policy crossed.shared.core.policy ≡ no_policy)
    × (crossed.shared.core.metrics.policy ≡ lru)
unfolding crossed program
collector_is_wrong = (refl, refl)

lru_keeps_name : KeepsName lru_policy
lru_keeps_name = record {
  access_name = λ k e s r ran. refl;
  insert_name = λ k e s r ran. refl;
  remove_name = λ k o s r ran. refl;
  victim_name = λ s r ran. refl;
  reset_name = λ s. refl;
}

switched_once : Reach lru_policy (OneSwitch lru_policy) idle (record {
  shared = record {
    core = record bare_start { metrics = note_policy no_policy start.metrics };
    locked = false;
  };
  calls = switched ∷ [];
})
unfolding advance ready is_start switch_locked program
switched_once =
    next
      (next (next here (begins to_none refl (omega arith)))
        (moves [] [] to_none _ _ refl refl refl))
      (moves [] [] (switch_note no_policy) _ _ refl refl refl)

Reach-named_example : (note_policy no_policy start.metrics).policy ≡ policy_name lru_policy none
unfolding program
Reach-named_example = Reach-named lru_keeps_name idle _ refl refl switched_once refl
