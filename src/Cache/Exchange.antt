-- ===== src/Cache/Exchange.antt =====
-- SetPolicy of cache/core.go from one implementation of the interface to another.
use adaptive_caching.Base.{
  ◌≡◌, ◌⊎◌, inl, inr, List, Option, none, some, Run, done, panic, out_of_fuel, arith, Returns,
  Yields, Yields-done, Yields-bind, ◌>>=◌,
}
use adaptive_caching.Types.{Entry}
use adaptive_caching.Metrics.{set_policy as note_policy}
use adaptive_caching.Policy.{EvictionPolicy, View, IsLawful}
use adaptive_caching.Policy.Either.{Either, either, either-IsLawful}
use adaptive_caching.Cache.{Cache, set_policy, with_policy, policy_name}
use adaptive_caching.Cache.Invariant.{IsValid}
use adaptive_caching.Cache.Switching.{IsIteration, set_policy-IsValid}

-- Both are none, or states of the same of the two implementations.
abbrev pub SameKind {ℓ κ} : {S : Type ℓ} {T : Type κ} → Option (S ⊎ T) → Option (S ⊎ T) → Type 0
SameKind none none = Unit
SameKind (some (inl a)) (some (inl b)) = Unit
SameKind (some (inr a)) (some (inr b)) = Unit
SameKind _ _ = ⊥

module _ (S T : Type 0) where
  abbrev first : S → S ⊎ T
  first a = inl a

  abbrev second : T → S ⊎ T
  second b = inr b

  left_kind :
      (a : S) (r : Run S)
      → Yields ((r >>= λ s. done (first s)) >>= λ s. done (some s)) (SameKind (some (first a)))
  left_kind a (done s) = Yields-done (SameKind (some (first a))) (some (first s)) tt
  left_kind a panic = λ o e. absurd (ground arith)
  left_kind a out_of_fuel = λ o e. absurd (ground arith)

  right_kind :
      (b : T) (r : Run T)
      → Yields ((r >>= λ s. done (second s)) >>= λ s. done (some s)) (SameKind (some (second b)))
  right_kind b (done s) = Yields-done (SameKind (some (second b))) (some (second s)) tt
  right_kind b panic = λ o e. absurd (ground arith)
  right_kind b out_of_fuel = λ o e. absurd (ground arith)

module _ (p q : EvictionPolicy) where
  rebuilt-SameKind :
      (es : List Entry) (o : Option (Either p q))
      → Yields (with_policy o (λ s. (either p q).rebuild es ((either p q).reset s))) (SameKind o)
  rebuilt-SameKind es none = Yields-done (SameKind none) none tt
  rebuilt-SameKind es (some (inl a)) = left_kind p.State q.State a (p.rebuild es (p.reset a))
  rebuilt-SameKind es (some (inr b)) = right_kind p.State q.State b (q.rebuild es (q.reset b))

  set_policy-SameKind :
      (es : List Entry) (o : Option (Either p q)) (c : Cache (either p q))
      → Yields (set_policy (either p q) es o c) (λ c'. SameKind o c'.policy)
  unfolding set_policy
  set_policy-SameKind es o c =
      Yields-bind (SameKind o) (λ c'. SameKind o c'.policy)
        (with_policy o (λ s. (either p q).rebuild es ((either p q).reset s))) _
        (rebuilt-SameKind es o)
        λ o' h.
          Yields-done (λ c'. SameKind o c'.policy)
            (record c {
              policy = o';
              metrics = note_policy (policy_name (either p q) o') c.metrics;
            })
            h

module _ {p q : EvictionPolicy} {view : View p} {view' : View q} (law : IsLawful p view)
    (law' : IsLawful q view') where
  -- SetPolicy of a valid cache over two lawful policies, all of whose resident keys both can hold:
  -- whichever of the two is installed (or none), and whichever is given, in whatever state (or
  -- none), and whatever the order in which the store's entries are iterated, it returns; the store
  -- is not touched, the policy that is installed then is of the implementation that was given, and
  -- the cache is valid with it, so that it tracks exactly the resident keys.
  pub exchange-IsValid :
      (es : List Entry) (o : Option (Either p q)) (c : Cache (either p q))
      → IsValid (either-IsLawful law law') c
      → IsIteration es c.store
      → Returns (set_policy (either p q) es o c) (λ c'.
        IsValid (either-IsLawful law law') c' × (c'.store ≡ c.store) × SameKind o c'.policy)
  exchange-IsValid es o c v it =
      let (c', ran, (v', kept)) = set_policy-IsValid (either-IsLawful law law') es o c v it in
      (c', ran, (v', kept, set_policy-SameKind p q es o c c' ran))
