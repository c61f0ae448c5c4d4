-- ===== src/Cache/Serving.antt =====
-- Get, Remove and Clear of cache/core.go.
use adaptive_caching.Base.{
  ◌≡◌, refl, sym, ap, ◌∙◌, inl, inr, Bool, true, false, Option, none, some, ite, if_pos, if_neg,
  Key, key_dec, done, Returns, Option-cases, if◌then◌else◌, is_some,
}
use adaptive_caching.Types.{Time, Request, op_get, sub_time}
use adaptive_caching.Store
use adaptive_caching.Store.{Store, contains, touch}
use adaptive_caching.Store.Invariant as StoreInvariant
use adaptive_caching.Store.Contents.{
  Resident-touch, Resident-remove, contains-touch, contains-clear, touch-get, remove-get,
  get-remove, contains-get,
}
use adaptive_caching.Events.{Event, type_hit, type_miss}
use adaptive_caching.Metrics.{record_request}
use adaptive_caching.Policy.{EvictionPolicy, View, IsLawful}
use adaptive_caching.Cache.Hooks.{on_remove-PolicyFits}
use adaptive_caching.Cache.{
  Cache, get, remove, clear, publish, is_hit, value_of, size_of, next_seq, sampled,
}
use adaptive_caching.Cache.Invariant.{IsValid, PolicyFits, publish-IsValid, access-PolicyFits}

module _ {p : EvictionPolicy} {view : View p} (law : IsLawful p view) where
  value-touch :
      (key : Key) (now : Time) (s : Store)
      → value_of p (touch key now s).1 ≡ value_of p (Store.get key s)
  value-touch key now s = elim (Option-cases (Store.get key s)) [
    | inl miss ↦ rw (touch-get key now s, miss) refl
    | inr (e, hit) ↦ rw (touch-get key now s, hit) refl
  ]

  sampled_publish-IsValid :
      (b : Bool) (e : Event) (c : Cache p)
      → IsValid law c
      → Returns
          (if b then publish p e c else done c)
          (λ c'. IsValid law c' × (c'.store ≡ c.store) × (c'.policy ≡ c.policy))
  sampled_publish-IsValid true e c v = publish-IsValid law e c v
  sampled_publish-IsValid false e c v = (c, refl, (v, refl, refl))

  -- Get of a valid cache returns. It gives the value under the key, if the key is resident; it
  -- changes the store as Touch does; and the cache stays valid.
  pub get-IsValid :
      (key : Key) (start end' : Time) (c : Cache p)
      → IsValid law c
      → Returns (get p key start end' c) (λ r.
        IsValid law r.0
        × (r.0.store ≡ (touch key start c.store).0)
        × (r.1 ≡ value_of p (Store.get key c.store)))
  unfolding get
  get-IsValid key start end' c v =
      let touched = touch key start c.store in
      let e = touched.1 in
      let (o, ran, o_fits) =
        access-PolicyFits law key e c.policy c.store touched.0 v.fits
          (λ j. contains-touch key j start c.store) in
      let request : Request = record {
        key = key;
        size = size_of p e;
        timestamp = start;
        request_id = next_seq p c;
        op = op_get;
      } in
      let c' : Cache p = record c {
        store = touched.0;
        policy = o;
        metrics = record_request request (is_hit p e) (sub_time end' start) c.metrics;
        seq = next_seq p c;
      } in
      let v' : IsValid law c' = record {
        store_valid = StoreInvariant.touch-IsValid key c.store v.store_valid start;
        fits = o_fits;
        resident = Resident-touch view.Admissible key c.store v.resident start;
        bus_valid = v.bus_valid;
      } in
      let event : Event = record {
        seq = next_seq p c;
        timestamp = start;
        kind = if is_hit p e then type_hit else type_miss;
      } in
      let (c'', ran', (v'', same, _)) =
        sampled_publish-IsValid (sampled (next_seq p c) c.sample_rate) event c' v' in
      ((c'', value_of p e), rw (ran, ran') refl, (v'', same, value-touch key start c.store))

  absent :
      (key j : Key) (s : Store)
      → Store.get key s ≡ none
      → Store.get j s ≡ ite (key_dec key j) none (Store.get j s)
  absent key j s miss = elim (key_dec key j) [
    | yes q ↦ rw (if_pos _ q, ← q) miss
    | no q ↦ rw (if_neg _ q) refl
  ]

  clear-PolicyFits :
      (o : Option p.State) (s : Store)
      → PolicyFits law (elim o [ none ↦ none | some q ↦ some (p.reset q) ]) (Store.clear s)
  clear-PolicyFits none s = tt
  clear-PolicyFits (some q) s =
      let (inv, tracked) = law.reset_law q in (inv, λ j. tracked j ∙ sym (contains-clear j s))

  -- Remove of a valid cache returns and says whether the key was resident; afterwards that key is
  -- not resident and every other key as before, and the cache stays valid.
  pub remove-IsValid :
      (key : Key) (c : Cache p)
      → IsValid law c
      → Returns (remove p key c) (λ r.
        IsValid law r.0
        × (r.1 ≡ contains key c.store)
        × ((j : Key) → Store.get j r.0.store ≡ ite (key_dec key j) none (Store.get j c.store)))
  unfolding remove
  remove-IsValid key c v = elim (Option-cases (Store.get key c.store)) [
    | inl miss ↦ (
      (c, false),
      rw (remove-get key c.store ∙ miss, remove) refl,
      (v, sym (contains-get key c.store ∙ ap is_some miss), λ j. absent key j c.store miss),
    )
    | inr (e, hit) ↦
        let (o, ran, fits') = on_remove-PolicyFits law key (some e) c.policy c.store v.fits in
        (
          (record c { store = (Store.remove key c.store).0; policy = o }, true),
          rw (remove-get key c.store ∙ hit, remove, ran) refl,
          (
            record {
              store_valid = StoreInvariant.remove-IsValid key c.store v.store_valid;
              fits = fits';
              resident = Resident-remove view.Admissible key c.store v.resident;
              bus_valid = v.bus_valid;
            },
            sym (contains-get key c.store ∙ ap is_some hit),
            λ j. get-remove key j c.store,
          ),
        )
  ]

  -- Clear leaves a valid cache with no objects and a policy that tracks no key.
  pub clear-IsValid :
      (c : Cache p)
      → IsValid law c
      → IsValid law (clear p c) × ((j : Key) → contains j (clear p c).store ≡ false)
  unfolding clear Store.clear
  clear-IsValid c v = (
    record {
      store_valid = StoreInvariant.clear-IsValid c.store v.store_valid;
      fits = clear-PolicyFits c.policy c.store;
      resident = tt;
      bus_valid = v.bus_valid;
    },
    λ j. contains-clear j c.store,
  )
