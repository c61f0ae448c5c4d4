-- ===== src/Cache/Threads/Locked.antt =====
-- The parts under the mutex of cache/core.go, and the invariant.
use adaptive_caching.Base.{
  ℕ, ◌<◌, ◌≡◌, refl, ap, ◌∙◌, Bool, true, false, List, Option, none, some, arith, Key, two64,
  Returns,
}
use adaptive_caching.Types.{Entry, Time}
use adaptive_caching.Store
use adaptive_caching.Store.{
  Store, Error, Result, ok, err, capacity_exceeded, invalid_size, object_too_large, touch, contains,
  write,
}
use adaptive_caching.Store.Invariant as StoreInvariant
use adaptive_caching.Store.Insert.{IsInserted, negative, too_large, full, fitting, insert-Ends}
use adaptive_caching.Store.Contents.{
  Resident, Resident-touch, Resident-write, Resident-remove, contains-touch, remove-get,
  contains-get,
}
use adaptive_caching.Events.{Event}
use adaptive_caching.Policy.{EvictionPolicy, View, IsLawful, IsChosen}
use adaptive_caching.Cache.{policy_name, Cache}
use adaptive_caching.Cache.Hooks.{Tracks, on_remove-Tracks, on_insert-PolicyFits, victim-IsChosen}
use adaptive_caching.Cache.Invariant.{IsValid, PolicyFits, publish-IsValid, access-PolicyFits}
use adaptive_caching.Cache.Switching.{IsIteration, rebuilt-PolicyFits}
use adaptive_caching.Cache.Threads.{
  Object, get_locked, publish_if, take_found, take_chosen, taken, make_room, after_insert,
  put_round, switch_locked, put_fetch,
}

module _ {p : EvictionPolicy} {view : View p} (law : IsLawful p view) where
  -- The size is an int64, and the policy can hold the key.
  abbrev pub IsStorable : Object → Type 0
  IsStorable o = (o.size < two64) × view.Admissible o.key

  -- The store and the policy of a valid cache, replaced.
  with_contents :
      (c : Cache p) (s : Store) (o : Option p.State)
      → IsValid law c
      → StoreInvariant.IsValid s
      → PolicyFits law o s
      → Resident view.Admissible s
      → IsValid law (record c { store = s; policy = o })
  with_contents c s o v store_valid fits resident = record {
    store_valid = store_valid;
    fits = fits;
    resident = resident;
    bus_valid = v.bus_valid;
  }

  pub get_locked-IsValid :
      (key : Key) (start : Time) (c : Cache p)
      → IsValid law c
      → Returns (get_locked p key start c) (λ r. IsValid law r.0)
  unfolding get_locked
  get_locked-IsValid key start c v =
      let touched = touch key start c.store in
      let (o, ran, fits) =
        access-PolicyFits law key touched.1 c.policy c.store touched.0 v.fits
          (λ j. contains-touch key j start c.store) in
      (
        (record c { store = touched.0; policy = o }, touched.1),
        rw ran refl,
        with_contents c touched.0 o v (StoreInvariant.touch-IsValid key c.store v.store_valid start)
            fits (Resident-touch view.Admissible key c.store v.resident start),
      )

  pub publish_if-IsValid :
      (b : Bool) (e : Event) (c : Cache p)
      → IsValid law c
      → Returns (publish_if p b e c) (IsValid law)
  unfolding publish_if
  publish_if-IsValid true e c v = let (c', ran, h) = publish-IsValid law e c v in (c', ran, h.0)
  publish_if-IsValid false e c v = (c, refl, v)

  take_found-IsValid :
      (k : Key) (q : p.State) (e : Option Entry) (c : Cache p)
      → IsValid law c
      → Tracks law c.store q
      → (Store.remove k c.store).1 ≡ e
      → contains k c.store ≡ true
      → Returns (take_found p k q (Store.remove k c.store) c) (λ r. IsValid law r.0)
  unfolding take_found
  take_found-IsValid k q none c v fits miss here =
      absurd (ground (arith, contains-get k c.store, remove-get k c.store))
  take_found-IsValid k q (some e) c v fits hit here =
      let (q', ran, fits') = on_remove-Tracks law k (some e) q c.store fits in
      let s = (Store.remove k c.store).0 in
      (
        (record c { store = s; policy = some q' }, some e),
        rw (hit, take_found, ran) refl,
        with_contents c s (some q') v (StoreInvariant.remove-IsValid k c.store v.store_valid) fits'
            (Resident-remove view.Admissible k c.store v.resident),
      )

  take_chosen-IsValid :
      (q : p.State) (o : Option Key) (c : Cache p)
      → IsValid law c
      → Tracks law c.store q
      → IsChosen (λ j. contains j c.store) o
      → Returns (take_chosen p (q, o) c) (λ r. IsValid law r.0)
  unfolding take_chosen
  take_chosen-IsValid q none c v fits chosen = (
    (record c { policy = some q }, none),
    refl,
    with_contents c c.store (some q) v v.store_valid fits v.resident,
  )
  take_chosen-IsValid q (some k) c v fits here =
      take_found-IsValid k q (Store.remove k c.store).1 c v fits refl here

  taken-IsValid :
      (o : Object) (seq : ℕ) (r : Cache p × Option Entry)
      → IsValid law r.0
      → IsValid law (taken p o seq r).0
  taken-IsValid o seq (c, none) v = v
  taken-IsValid o seq (c, some e) v = v

  make_room-IsValid :
      (o : Object) (seq : ℕ) (c : Cache p) (q : Option p.State)
      → IsValid law c
      → PolicyFits law q c.store
      → Returns (make_room p o seq c q) (λ r. IsValid law r.0)
  unfolding make_room
  make_room-IsValid o seq c none v fits = (_, refl, v)
  make_room-IsValid o seq c (some q) v fits =
      let (r, ran, (fits', chosen)) = victim-IsChosen law q c.store fits in
      let (x, ran', v') = take_chosen-IsValid r.0 r.1 c v fits' chosen in
      (taken p o seq x, rw (ran, ran') refl, taken-IsValid o seq x v')

  stored-IsValid :
      (o : Object) (seq : ℕ) (c : Cache p)
      → IsValid law c
      → IsStorable o
      → let w = write o.key o.val o.size o.now (Store.get o.key c.store) c.store in
        IsInserted o.key o.val o.size o.now c.store w.0 w.1
        → let w = write o.key o.val o.size o.now (Store.get o.key c.store) c.store in
          Returns (after_insert p o seq c (ok w)) (λ r. IsValid law r.0)
  unfolding after_insert
  stored-IsValid o seq c v storable ins =
      let w = write o.key o.val o.size o.now (Store.get o.key c.store) c.store in
      let (q, ran, fits) =
        on_insert-PolicyFits law o.key o.val o.size o.now c.policy c.store v.fits storable.1 in
      (
        (record c { store = w.0; policy = q }, true, put_fetch o.size),
        rw ran refl,
        with_contents c w.0 q v ins.valid fits (
            Resident-write view.Admissible o.key c.store v.resident o.val o.size o.now
              (Store.get o.key c.store) storable.1),
      )

  -- A round of the loop of Put.
  pub put_round-IsValid :
      (o : Object) (seq : ℕ) (c : Cache p)
      → IsValid law c
      → IsStorable o
      → Returns (put_round p o seq c) (λ r. IsValid law r.0)
  unfolding put_round after_insert
  put_round-IsValid o seq c v storable =
      elim (insert-Ends o.key o.val o.size o.now c.store v.store_valid storable.0) [
        | negative e _ ↦ (_, ap (after_insert p o seq c) e, v)
        | too_large e _ _ ↦ (_, ap (after_insert p o seq c) e, v)
        | fitting e ins ↦
            let (r, ran, v') = stored-IsValid o seq c v storable ins in
            (r, ap (after_insert p o seq c) e ∙ ran, v')
        | full e _ _ ↦
            let (r, ran, v') = make_room-IsValid o seq c c.policy v v.fits in
            (r, ap (after_insert p o seq c) e ∙ ran, v')
      ]

  pub switch_locked-IsValid :
      (es : List Entry) (o : Option p.State) (c : Cache p)
      → IsValid law c
      → IsIteration es c.store
      → Returns (switch_locked p es o c) (λ r. IsValid law r.0)
  unfolding switch_locked
  switch_locked-IsValid es o c v it =
      let (q, ran, fits) = rebuilt-PolicyFits law es o c v it in
      (
        (record c { policy = q }, policy_name p q),
        rw ran refl,
        with_contents c c.store q v v.store_valid fits v.resident,
      )
