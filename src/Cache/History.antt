-- ===== src/Cache/History.antt =====
-- Histories of calls on the cache of cache/core.go.
use adaptive_caching.Base.{
  ◌^◌, ◌≤◌, ◌<◌, ◌≡◌, refl, sym, ◌∙◌, ap, subst, inl, inr, Bool, false, List, Option, none, some,
  arith, Key, Int64, two64, done, Returns, lookup, Bool-cases,
}
use adaptive_caching.Types.{Entry, Value, Time}
use adaptive_caching.Store.{Error, contains, new_store}
use adaptive_caching.Store.Invariant as StoreInvariant
use adaptive_caching.Store.Invariant.{payload}
use adaptive_caching.Policy.{EvictionPolicy, View, IsLawful}
use adaptive_caching.Cache.{Cache, Options, new, get, put, remove, clear, set_policy, next_seq}
use adaptive_caching.Cache.Invariant.{IsValid, PolicyFits, BusFits}
use adaptive_caching.Cache.Serving.{get-IsValid, remove-IsValid, clear-IsValid}
use adaptive_caching.Cache.Occupancy.{stats, stats-IsValid}
use adaptive_caching.Metrics.Memory.{Sizes}
use adaptive_caching.Cache.Switching.{IsIteration, set_policy-IsValid}
use adaptive_caching.Cache.Put.{put-Outcome, put-BareOutcome, put_declined}

done_eq {ℓ} : {A : Type ℓ} {a b : A} → done a ≡ done b → a ≡ b
done_eq e = cc

module _ {p : EvictionPolicy} {view : View p} (law : IsLawful p view) where
  -- A policy in its empty state, or none.
  abbrev pub IsFresh : Option p.State → Type 0
  IsFresh none = Unit
  IsFresh (some q) = view.Inv q × ((j : Key) → view.tracks q j ≡ false)

  fresh_fits :
      (o : Option p.State) (capacity : Int64) → IsFresh o → PolicyFits law o (new_store capacity)
  unfolding new_store contains lookup
  fresh_fits none capacity f = tt
  fresh_fits (some q) capacity f = f

  -- A new cache is valid.
  pub new-IsValid :
      (o : Options p.State)
      → o.capacity < 2 ^ 62
      → IsFresh o.policy
      → BusFits o.bus
      → IsValid law (new p o)
  unfolding new new_store
  new-IsValid o small fresh bus = record {
    store_valid = StoreInvariant.new_store-IsValid o.capacity small;
    fits = fresh_fits o.policy o.capacity fresh;
    resident = tt;
    bus_valid = bus;
  }

  -- One call that returns. The keys that are put are ones that the policy can hold, and the sizes
  -- are int64.
  pub data Step (c : Cache p) : Cache p → Type 0 where
    gets :
        (key : Key) (start end' : Time) {c' : Cache p} (val : Option Value)
        → get p key start end' c ≡ done (c', val)
        → Step c c'
    puts :
        (key : Key) (val : Value) (size : Int64) (now : Time) {c' : Cache p} (e : Option Error)
        → size < two64
        → view.Admissible key
        → put p key val size now c ≡ done (c', e)
        → Step c c'
    removes :
        (key : Key) {c' : Cache p} (found : Bool) → remove p key c ≡ done (c', found) → Step c c'
    clears : Step c (clear p c)
    observes : (sizes : Sizes) → Step c (stats p sizes c)
    switches :
        (es : List Entry) (o : Option p.State) {c' : Cache p}
        → IsIteration es c.store
        → set_policy p es o c ≡ done c'
        → Step c c'

  pub data Reach (c : Cache p) : Cache p → Type 0 where
    here : Reach c c
    next : {c' c'' : Cache p} → Reach c c' → Step c' c'' → Reach c c''

  pub put-IsValid :
      (key : Key) (val : Value) (size : Int64) (now : Time) (c : Cache p) (o : Option p.State)
      → c.policy ≡ o
      → IsValid law c
      → size < two64
      → view.Admissible key
      → Returns (put p key val size now c) (λ r. IsValid law r.0)
  put-IsValid key val size now c none e v bits admissible =
      let (r, ran, rest) = put-BareOutcome law key val size now c v bits admissible e in
      (r, ran, rest.0)
  put-IsValid key val size now c (some q) e v bits admissible =
      elim (Bool-cases (p.should_admit key size q)) [
        | inl yes' ↦
            let (r, ran, rest) = put-Outcome law key val size now c v bits admissible q e yes' in
            (r, ran, rest.0)
        | inr no' ↦ (
          (record c { seq = next_seq p c }, none),
          put_declined law key val size now c v bits admissible q e no',
          record {
            store_valid = v.store_valid;
            fits = v.fits;
            resident = v.resident;
            bus_valid = v.bus_valid;
          },
        )
      ]

  Step-IsValid : {c c' : Cache p} → IsValid law c → Step c c' → IsValid law c'
  Step-IsValid {c} v (gets key start end' val e) =
      let (r, ran, rest) = get-IsValid law key start end' c v in
      subst (IsValid law) (ap (λ x. x.0) (done_eq (sym ran ∙ e))) rest.0
  Step-IsValid {c} v (puts key val size now err bits admissible e) =
      let (r, ran, rest) = put-IsValid key val size now c c.policy refl v bits admissible in
      subst (IsValid law) (ap (λ x. x.0) (done_eq (sym ran ∙ e))) rest
  Step-IsValid {c} v (removes key found e) =
      let (r, ran, rest) = remove-IsValid law key c v in
      subst (IsValid law) (ap (λ x. x.0) (done_eq (sym ran ∙ e))) rest.0
  Step-IsValid {c} v clears = (clear-IsValid law c v).0
  Step-IsValid {c} v (observes sizes) = (stats-IsValid law sizes c v).0
  Step-IsValid {c} v (switches es o it e) =
      let (r, ran, rest) = set_policy-IsValid law es o c v it in
      subst (IsValid law) (done_eq (sym ran ∙ e)) rest.0

  -- Whatever is called on a valid cache, in whatever order, the cache stays valid.
  pub Reach-IsValid : {c c' : Cache p} → IsValid law c → Reach c c' → IsValid law c'
  Reach-IsValid v here = v
  Reach-IsValid v (next r s) = Step-IsValid (Reach-IsValid v r) s

  -- After any history of Get, Put, Remove, Clear, Stats and SetPolicy from a new cache (of a capacity
  -- below 2 ^ 62, with a lawful policy in its empty state or none, and a valid bus or none; the
  -- keys that are put are such that the policy can hold them), the counter of bytes is the sum of
  -- the sizes of the resident objects and at most the capacity, and the policy, if one is
  -- installed, tracks exactly the resident keys.
  pub Reach-new :
      (o : Options p.State) (c : Cache p)
      → o.capacity < 2 ^ 62
      → IsFresh o.policy
      → BusFits o.bus
      → Reach (new p o) c
      → (c.store.bytes ≡ payload c.store.items)
        × (c.store.bytes ≤ c.store.capacity)
        × ((q : p.State) → c.policy ≡ some q → (j : Key) → view.tracks q j ≡ contains j c.store)
  Reach-new o c small fresh bus r =
      let v = Reach-IsValid (new-IsValid o small fresh bus) r in
      (
        v.store_valid.exact,
        omega (arith, v.store_valid.exact, v.store_valid.within),
        λ q e j. (subst (λ x. PolicyFits law x c.store) e v.fits).1 j,
      )
