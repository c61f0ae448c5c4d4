-- ===== src/Cache/Threads/Tally.antt =====
-- Sums over the calls in flight on the cache of cache/core.go, and what each part of a call leaves
-- alone.
use adaptive_caching.Base.{
  ℕ, ◌+◌, ◌≡◌, sym, ap, subst, ◌∙◌, true, List, [], ◌∷◌, ◌++◌, arith, Yields,
}
use adaptive_caching.Policy.{EvictionPolicy}
use adaptive_caching.Cache.Threads.{
  Pc, Shared, System, Step, begins, moves, Reach, here, next, advance, ready, is_start,
}

-- The sum of `f` over a list.
abbrev pub total {ℓ} : {A : Type ℓ} → (A → ℕ) → List A → ℕ
total f [] = 0
total f (x ∷ xs) = f x + total f xs

pub total-middle {ℓ} :
    {A : Type ℓ} (f : A → ℕ) (before after : List A) (x : A)
    → total f (before ++ x ∷ after) ≡ total f before + total f after + f x
total-middle f [] after x = omega arith
total-middle f (z ∷ before) after x = omega (arith, total-middle f before after x)

module _ (p : EvictionPolicy) where
  -- What a step does to the call's share of a sum it does to the shared state.
  abbrev pub Follows : (Pc p → ℕ) → (ℕ → Shared p → Type 0) → Type 0
  Follows f I =
      (t : Pc p) (m : Shared p)
      → ready p t m.locked ≡ true
      → Yields (advance p t m) (λ r. (n : ℕ) → I (n + f t) m → I (n + f r.1) r.0)

  -- Such a statement about the sum holds at every point of every interleaving.
  pub Follows-Step :
      (f : Pc p → ℕ) (I : ℕ → Shared p → Type 0) {Allowed : List (Pc p) → Pc p → Type 0}
      {s s' : System p}
      → Follows f I
      → ((t : Pc p) → is_start p t ≡ true → f t ≡ 0)
      → Step p Allowed s s'
      → I (total f s.calls) s.shared
      → I (total f s'.calls) s'.shared
  Follows-Step f I {s = s} fol zero_start (begins t st _) i =
      subst (λ n. I n s.shared) (omega (arith, zero_start t st)) i
  Follows-Step f I {s = s} fol zero_start (moves before after t m t' e rdy ran) i =
      let rest = total f before + total f after in
      let split = λ (x : Pc p). total-middle f before after x in
      subst (λ n. I n m) (sym (split t'))
        (fol t s.shared rdy (m, t') ran rest
          (subst (λ n. I n s.shared) (ap (total f) e ∙ split t) i))

  pub Follows-Reach :
      (f : Pc p → ℕ) (I : ℕ → Shared p → Type 0) {Allowed : List (Pc p) → Pc p → Type 0}
      {s s' : System p}
      → Follows f I
      → ((t : Pc p) → is_start p t ≡ true → f t ≡ 0)
      → Reach p Allowed s s'
      → I (total f s.calls) s.shared
      → I (total f s'.calls) s'.shared
  Follows-Reach f I fol zero_start here i = i
  Follows-Reach f I fol zero_start (next r st) i =
      Follows-Step f I fol zero_start st (Follows-Reach f I fol zero_start r i)
