-- ===== src/Tests/Caches/Exchange.antt =====
-- SetPolicy from LRU to CLOCK on a cache that holds an object.
use adaptive_caching.Base.{◌≡◌, refl, inl, inr, [], ◌∷◌, some, arith, Returns, str_eq-false}
use adaptive_caching.Policy.Lru.{lru_policy}
use adaptive_caching.Policy.Lru.Contract.{lru-IsLawful}
use adaptive_caching.Policy.Clock.{clock_policy, new_clock}
use adaptive_caching.Policy.Clock.Contract.{clock-IsLawful}
use adaptive_caching.Policy.Either.{either, either-IsLawful}
use adaptive_caching.Cache.{Cache, set_policy}
use adaptive_caching.Cache.Invariant.{IsValid}
use adaptive_caching.Cache.Switching.{IsIteration}
use adaptive_caching.Cache.Exchange.{SameKind, exchange-IsValid}
use adaptive_caching.Tests.Caches.{warm, warm-IsValid, warm_policy, entry_a, program, state_or}

-- The cache with LRU that holds "a", as one whose policy is LRU or CLOCK.
abbrev held : Cache (either lru_policy clock_policy)
held = record {
  store = warm.store;
  policy = some (inl warm_policy.0);
  bus = warm.bus;
  metrics = warm.metrics;
  sample_rate = warm.sample_rate;
  seq = warm.seq;
}

held-IsValid : IsValid (either-IsLawful lru-IsLawful clock-IsLawful) held
unfolding warm program state_or warm_policy
held-IsValid = record {
  store_valid = warm-IsValid.store_valid;
  fits = warm-IsValid.fits;
  resident = ((tt, str_eq-false "a" "" refl), tt);
  bus_valid = warm-IsValid.bus_valid;
}

held-IsIteration : IsIteration (entry_a ∷ []) held.store
unfolding warm program state_or
held-IsIteration = record { distinct = (tt, refl, tt); complete = λ j. ground arith }

exchange-IsValid_example :
    Returns
      (set_policy (either lru_policy clock_policy) (entry_a ∷ []) (some (inr new_clock)) held)
      (λ c.
        IsValid (either-IsLawful lru-IsLawful clock-IsLawful) c
        × (c.store ≡ held.store)
        × SameKind (some (inr new_clock)) c.policy)
exchange-IsValid_example =
    exchange-IsValid lru-IsLawful clock-IsLawful (entry_a ∷ []) (some (inr new_clock)) held
      held-IsValid held-IsIteration
