-- ===== src/Cache/Threads/Progress.antt =====
-- That calls in flight on the cache of cache/core.go get on.
use adaptive_caching.Base.{◌≡◌, Bool, true, false, List, [], ◌∷◌, ◌++◌, Returns, ltb}
use adaptive_caching.Policy.{EvictionPolicy}
use adaptive_caching.Cache.Threads.{Pc, Shared, System, advance, ready}
use adaptive_caching.Cache.Threads.Exclusion.{holds}

-- Where a test succeeds first, or that it nowhere does.
abbrev Found {ℓ} : {A : Type ℓ} → (A → Bool) → List A → Type ℓ
Found {A = A} f l =
    (before : List A) × (after : List A) × (t : A) × (l ≡ before ++ t ∷ after) × (f t ≡ true)

abbrev pub Nowhere {ℓ} : {A : Type ℓ} → (A → Bool) → List A → Type 0
Nowhere f [] = Unit
Nowhere f (t ∷ ts) = (f t ≡ false) × Nowhere f ts

module _ (p : EvictionPolicy) where
  abbrev is_holder : Pc p → Bool
  is_holder t = ltb 0 (holds p t)

  -- A call has returned if it makes no step even while the mutex is free.
  abbrev pub unfinished : Pc p → Bool
  unfinished t = ready p t false

  -- The step of each of the calls returns: it neither panics nor runs for ever.
  abbrev pub EachReturns : Shared p → List (Pc p) → Type 0
  EachReturns m [] = Unit
  EachReturns m (t ∷ ts) = Returns (advance p t m) (λ _. Unit {0}) × EachReturns m ts

  -- Some call in flight is ready.
  abbrev pub SomeReady : System p → Type 0
  SomeReady s =
      (before : List (Pc p)) × (after : List (Pc p)) × (t : Pc p) × (s.calls ≡ before ++ t ∷ after)
      × (ready p t s.shared.locked ≡ true)
