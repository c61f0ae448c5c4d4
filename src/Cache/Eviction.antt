-- ===== src/Cache/Eviction.antt =====
-- evictOneLocked of cache/core.go.
use adaptive_caching.Base.{
  ℕ, ◌≡◌, ◌≢◌, refl, subst, ◌∙◌, inl, inr, Bool, true, false, [], Option, none, some, arith, Key,
  done, Returns, Option-cases,
}
use adaptive_caching.Types.{Entry, Time}
use adaptive_caching.Store
use adaptive_caching.Store.{
  Store, Error, invalid_size, object_too_large, capacity_exceeded, contains, write, object_count,
  ok, err,
}
use adaptive_caching.Store.Invariant as StoreInvariant
use adaptive_caching.Store.Invariant.{others, payload}
use adaptive_caching.Store.Contents.{Resident-remove, remove-get, contains-get, empty_of_contains}
use adaptive_caching.Events.{Event, type_eviction}
use adaptive_caching.Metrics.{record_eviction}
use adaptive_caching.Policy.{EvictionPolicy, View, IsLawful, IsChosen}
use adaptive_caching.Cache.Hooks.{Tracks, on_remove-Tracks, victim-IsChosen}
use adaptive_caching.Cache.{Cache, evict_one, evict_key}
use adaptive_caching.Cache.Invariant.{IsValid, PolicyFits, publish-IsValid}

module _ {p : EvictionPolicy} {view : View p} (law : IsLawful p view) where
  -- What evicting `k` leaves: a valid cache with a policy, whose store is the old one without `k`.
  pub record Evicted (k : Key) (c c' : Cache p) : Type 0 where
    pub valid : IsValid law c'
    pub store_kept : c'.store ≡ (Store.remove k c.store).0
    pub installed : (q : p.State) × (c'.policy ≡ some q)

  evict_key-Evicted :
      (seq : ℕ) (now : Time) (k : Key) (q : p.State) (c : Cache p)
      → IsValid law c
      → Tracks law c.store q
      → contains k c.store ≡ true
      → Returns (evict_key p seq now k q c) (λ r. Evicted k c r.0 × (r.1 ≡ true))
  unfolding evict_key
  evict_key-Evicted seq now k q c v fits here = elim (Option-cases (Store.get k c.store)) [
    | inl miss ↦ absurd (ground (arith, contains-get k c.store))
    | inr (e, hit) ↦
        let (q', ran, fits') = on_remove-Tracks law k (some e) q c.store fits in
        let store' = (Store.remove k c.store).0 in
        let c' : Cache p = record c {
          store = store';
          policy = some q';
          metrics = record_eviction e.size c.metrics;
        } in
        let v' : IsValid law c' = record {
          store_valid = StoreInvariant.remove-IsValid k c.store v.store_valid;
          fits = fits';
          resident = Resident-remove view.Admissible k c.store v.resident;
          bus_valid = v.bus_valid;
        } in
        let event : Event = record { seq = seq; timestamp = now; kind = type_eviction } in
        let (c'', ran', (v'', same, kept)) = publish-IsValid law event c' v' in
        (
          (c'', true),
          rw (remove-get k c.store ∙ hit, evict_key, ran, ran') refl,
          (record { valid = v''; store_kept = same; installed = (q', kept) }, refl),
        )
  ]

  -- Some resident object was evicted.
  abbrev pub SomeEvicted : Cache p → Cache p × Bool → Type 0
  SomeEvicted c r =
      (k : Key) × (e : Entry) × (Store.get k c.store ≡ some e) × Evicted k c r.0 × (r.1 ≡ true)

  evict_chosen :
      (seq : ℕ) (now : Time) (q : p.State) (c : Cache p) (o : Option Key)
      → IsValid law c
      → Tracks law c.store q
      → IsChosen (λ j. contains j c.store) o
      → c.store.items ≢ []
      → Returns
          (elim o [
            | none ↦ done (record c { policy = some q }, false)
            | some k ↦ evict_key p seq now k q c
          ])
          (SomeEvicted c)
  evict_chosen seq now q c none v fits chosen some' =
      absurd (some' (empty_of_contains c.store chosen))
  evict_chosen seq now q c (some k) v fits here some' =
      let (r, ran, (evicted, yes')) = evict_key-Evicted seq now k q c v fits here in
      elim (Option-cases (Store.get k c.store)) [
        | inl miss ↦ absurd (ground (arith, contains-get k c.store))
        | inr (e, hit) ↦ (r, ran, (k, e, hit, evicted, yes'))
      ]

  -- With a policy and an object to evict, evictOneLocked succeeds.
  pub evict_one-Evicted :
      (seq : ℕ) (now : Time) (q : p.State) (c : Cache p)
      → IsValid law c
      → c.policy ≡ some q
      → c.store.items ≢ []
      → Returns (evict_one p seq now q c) (SomeEvicted c)
  unfolding evict_one
  evict_one-Evicted seq now q c v installed some' =
      let fits : Tracks law c.store q = subst (λ o. PolicyFits law o c.store) installed v.fits in
      let (r, ran, (fits', chosen)) = victim-IsChosen law q c.store fits in
      let (r', ran', rest) = evict_chosen seq now r.0 c r.1 v fits' chosen some' in
      (r', rw ran ran', rest)
