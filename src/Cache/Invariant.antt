-- ===== src/Cache/Invariant.antt =====
-- The invariant of the cache of cache/core.go, for any policy.
use adaptive_caching.Base.{◌≡◌, refl, sym, ◌∙◌, Option, none, some, Key, Run, Returns}
use adaptive_caching.Types.{Entry}
use adaptive_caching.Store.{Store, contains}
use adaptive_caching.Store.Invariant as StoreInvariant
use adaptive_caching.Store.Contents.{Resident}
use adaptive_caching.Events.{Event, MemBus}
use adaptive_caching.Events.Invariant as BusInvariant
use adaptive_caching.Policy.{EvictionPolicy, View, IsLawful}
use adaptive_caching.Cache.{Cache, publish, publish_to, with_policy, access}

abbrev pub BusFits : Option MemBus → Type 0
BusFits none = Unit
BusFits (some b) = BusInvariant.IsValid b

publish_to-BusFits : (e : Event) (o : Option MemBus) → BusFits o → Returns (publish_to e o) BusFits
publish_to-BusFits e none v = (none, refl, tt)
publish_to-BusFits e (some b) v =
    let (b', ran, rest) = BusInvariant.publish-after e b v in (some b', rw ran refl, rest.0)

module _ {p : EvictionPolicy} {view : View p} (law : IsLawful p view) where
  -- The policy, if there is one, tracks exactly the resident keys.
  abbrev pub PolicyFits : Option p.State → Store → Type 0
  PolicyFits none s = Unit
  PolicyFits (some q) s = view.Inv q × ((j : Key) → view.tracks q j ≡ contains j s)

  pub record IsValid (c : Cache p) : Type 0 where
    pub store_valid : StoreInvariant.IsValid c.store
    pub fits : PolicyFits c.policy c.store
    pub resident : Resident view.Admissible c.store
    pub bus_valid : BusFits c.bus

  -- An event changes the bus alone.
  pub publish-IsValid :
      (e : Event) (c : Cache p)
      → IsValid c
      → Returns (publish p e c) (λ c'. IsValid c' × (c'.store ≡ c.store) × (c'.policy ≡ c.policy))
  unfolding publish
  publish-IsValid e c v =
      let (b, ran, ok') = publish_to-BusFits e c.bus v.bus_valid in
      (
        record c { bus = b },
        rw ran refl,
        (
          record {
            store_valid = v.store_valid;
            fits = v.fits;
            resident = v.resident;
            bus_valid = ok';
          },
          refl,
          refl,
        ),
      )

  -- A hook that changes the tracked keys as the store changed keeps the two in step.
  pub with_policy-PolicyFits :
      (o : Option p.State) (s s' : Store) (f : p.State → Run p.State)
      → PolicyFits o s
      → ((q : p.State)
          → view.Inv q
          → ((j : Key) → view.tracks q j ≡ contains j s)
          → Returns (f q) (λ q'. view.Inv q' × ((j : Key) → view.tracks q' j ≡ contains j s')))
      → Returns (with_policy o f) (λ o'. PolicyFits o' s')
  with_policy-PolicyFits none s s' f v hook = (none, refl, tt)
  with_policy-PolicyFits (some q) s s' f v hook =
      let (q', ran, rest) = hook q v.0 v.1 in (some q', rw ran refl, rest)

  PolicyFits-same :
      (o : Option p.State) (s s' : Store)
      → PolicyFits o s
      → ((j : Key) → contains j s' ≡ contains j s)
      → PolicyFits o s'
  PolicyFits-same none s s' v same = tt
  PolicyFits-same (some q) s s' v same = (v.0, λ j. v.1 j ∙ sym (same j))

  pub access-PolicyFits :
      (key : Key) (e : Option Entry) (o : Option p.State) (s s' : Store)
      → PolicyFits o s
      → ((j : Key) → contains j s' ≡ contains j s)
      → Returns (access p key e o) (λ o'. PolicyFits o' s')
  unfolding access
  access-PolicyFits key none o s s' v same = (o, refl, PolicyFits-same o s s' v same)
  access-PolicyFits key (some e) o s s' v same =
      with_policy-PolicyFits o s s' (p.on_access key e) v λ q inv tracked.
        let (q', ran, (inv', tracked')) = law.access_law key e q inv in
        (q', ran, (inv', λ j. tracked' j ∙ tracked j ∙ sym (same j)))
