-- ===== src/Cache/Threads/Sections.antt =====
-- What the parts of a call that run under the mutex, and the bus, leave alone: cache/core.go.
use adaptive_caching.Base.{
  ℕ, suc, ◌≤◌, ◌<◌, arith, ◌≡◌, refl, inl, inr, Bool, true, false, List, Option, none, some, Key,
  Yields, Yields-done, Yields-bind, done, Run, ◌>>=◌, subst, sym, Option-cases,
}
use adaptive_caching.Types.{Entry, Time}
use adaptive_caching.Store
use adaptive_caching.Store.{
  object_count, Store, Error, Result, ok, err, capacity_exceeded, invalid_size, object_too_large,
  touch,
}
use adaptive_caching.Store.Invariant as StoreInvariant
use adaptive_caching.Store.Counts.{
  object_count-touch, AddsOne, insert-AddsOne, object_count-remove_le, object_count-removed,
}
use adaptive_caching.Events.{Event}
use adaptive_caching.Policy.{EvictionPolicy}
use adaptive_caching.Cache.{Cache, access, with_policy, publish, publish_to, remove}
use adaptive_caching.Cache.Threads.{
  Pc, RoundEnd, put_fetch, put_evicted, have_put, get_locked, publish_if, take_found, take_chosen,
  taken, make_room, after_insert, put_round, switch_locked, Object,
}

any {ℓ} : {A : Type ℓ} (r : Run A) → Yields r (λ _. Unit {0})
any r a e = tt

module _ (p : EvictionPolicy) where
  -- The counter of operations and the collector are as before.
  abbrev pub Uncounted : Cache p → Cache p → Type 0
  Uncounted c c' = (c'.seq ≡ c.seq) × (c'.metrics ≡ c.metrics)

  -- So they are, and there are no more objects than before.
  abbrev pub Untouched : Cache p → Cache p → Type 0
  Untouched c c' =
      (c'.seq ≡ c.seq) × (c'.metrics ≡ c.metrics) × (object_count c'.store ≤ object_count c.store)

  -- How a round of the loop of Put ends, and what it does to the number of objects.
  pub data Ends (o : Object) (seq : ℕ) (c c' : Cache p) : Bool → Pc p → Type 0 where
    stores :
        object_count c'.store ≤ suc (object_count c.store) → Ends o seq c c' true (put_fetch o.size)
    evicts :
        (e : Entry)
        → (StoreInvariant.IsValid c.store → object_count c'.store < object_count c.store)
        → Ends o seq c c' true (put_evicted o seq e)
    fails :
        (e : Error)
        → object_count c'.store ≤ object_count c.store
        → Ends o seq c c' false (have_put (some e))

  same : (c : Cache p) → Untouched c c
  same c = (refl, refl, omega arith)

  pub publish-Untouched : (e : Event) (c : Cache p) → Yields (publish p e c) (Untouched c)
  unfolding publish
  publish-Untouched e c =
      Yields-bind (λ _. Unit {0}) (Untouched c) (publish_to e c.bus) _ (any _)
        λ b _. Yields-done (Untouched c) (record c { bus = b }) (same c)

  pub publish_if-Untouched :
      (b : Bool) (e : Event) (c : Cache p) → Yields (publish_if p b e c) (Untouched c)
  unfolding publish_if
  publish_if-Untouched true e c = publish-Untouched e c
  publish_if-Untouched false e c = Yields-done (Untouched c) c (same c)

  pub get_locked-Untouched :
      (key : Key) (start : Time) (c : Cache p)
      → Yields (get_locked p key start c) (λ r. Untouched c r.0)
  unfolding get_locked
  get_locked-Untouched key start c =
      let (s, e) = touch key start c.store in
      Yields-bind (λ _. Unit {0}) (λ r. Untouched c r.0) (access p key e c.policy) _ (any _)
        λ q _.
          Yields-done (λ r. Untouched c r.0) (record c { store = s; policy = q }, e)
            (refl, refl, omega (arith, object_count-touch key start c.store))

  pub switch_locked-Untouched :
      (es : List Entry) (s : Option p.State) (c : Cache p)
      → Yields (switch_locked p es s c) (λ r. Untouched c r.0)
  unfolding switch_locked
  switch_locked-Untouched es s c =
      Yields-bind (λ _. Unit {0}) (λ r. Untouched c r.0)
        (with_policy s (λ q. p.rebuild es (p.reset q))) _ (any _)
        λ q _. Yields-done (λ r. Untouched c r.0) (record c { policy = q }, _) (same c)

  -- The victim is gone from the store, or there is none.
  abbrev Takes : Cache p → Cache p × Option Entry → Type 0
  Takes c (c', none) = Untouched c c'
  Takes c (c', some e) =
      Uncounted c c'
      × (StoreInvariant.IsValid c.store → object_count c'.store < object_count c.store)

  take_found-Takes :
      (k : Key) (s : p.State) (e : Option Entry) (c : Cache p)
      → (Store.remove k c.store).1 ≡ e
      → Yields (take_found p k s ((Store.remove k c.store).0, e) c) (Takes c)
  unfolding take_found
  take_found-Takes k s none c h =
      Yields-bind (λ _. Unit {0}) (Takes c) (p.on_remove k none s) _ (any _)
        λ q _. Yields-done (Takes c) (record c { policy = some q }, none) (same c)
  take_found-Takes k s (some e) c h =
      Yields-bind (λ _. Unit {0}) (Takes c) (p.on_remove k (some e) s) _ (any _)
        λ q _.
          Yields-done (Takes c)
            (record c { store = (Store.remove k c.store).0; policy = some q }, some e)
            ((refl, refl), object_count-removed k e c.store h)

  take_chosen-Takes :
      (v : p.State × Option Key) (c : Cache p) → Yields (take_chosen p v c) (Takes c)
  unfolding take_chosen
  take_chosen-Takes (q, none) c =
      Yields-done (Takes c) (record c { policy = some q }, none) (same c)
  take_chosen-Takes (q, some k) c = take_found-Takes k q (Store.remove k c.store).1 c refl

  -- What a round of the loop of Put leaves, and where the call then stands.
  abbrev pub IsRound : Object → ℕ → Cache p → RoundEnd p → Type 0
  IsRound o seq c r = Uncounted c r.0 × Ends o seq c r.0 r.1 r.2

  taken-IsRound :
      (o : Object) (seq : ℕ) (c : Cache p) (r : Cache p × Option Entry)
      → Takes c r
      → IsRound o seq c (taken p o seq r)
  taken-IsRound o seq c (c', none) u = ((u.0, u.1), fails capacity_exceeded u.2)
  taken-IsRound o seq c (c', some e) u = (u.0, evicts e u.1)

  failed :
      (o : Object) (seq : ℕ) (c : Cache p) (e : Error)
      → IsRound o seq c (c, false, have_put (some e))
  failed o seq c e = ((refl, refl), fails e (omega arith))

  make_room-IsRound :
      (o : Object) (seq : ℕ) (c : Cache p) (s : Option p.State)
      → Yields (make_room p o seq c s) (IsRound o seq c)
  unfolding make_room
  make_room-IsRound o seq c none =
      Yields-done (IsRound o seq c) _ (failed o seq c capacity_exceeded)
  make_room-IsRound o seq c (some s) =
      Yields-bind (λ _. Unit {0}) (IsRound o seq c) (p.victim s) _ (any _)
        λ v _.
          Yields-bind (Takes c) (IsRound o seq c) (take_chosen p v c) _ (take_chosen-Takes v c)
            λ r u. Yields-done (IsRound o seq c) (taken p o seq r) (taken-IsRound o seq c r u)

  after_insert-IsRound :
      (o : Object) (seq : ℕ) (c : Cache p) (r : Result (Store × Entry))
      → AddsOne c.store r
      → Yields (after_insert p o seq c r) (IsRound o seq c)
  unfolding after_insert
  after_insert-IsRound o seq c (ok (store, e)) h =
      Yields-bind (λ _. Unit {0}) (IsRound o seq c) (with_policy c.policy (p.on_insert o.key e)) _
        (any _) λ q _. Yields-done (IsRound o seq c) _ ((refl, refl), stores h)
  after_insert-IsRound o seq c (err capacity_exceeded) h = make_room-IsRound o seq c c.policy
  after_insert-IsRound o seq c (err invalid_size) h =
      Yields-done (IsRound o seq c) _ (failed o seq c invalid_size)
  after_insert-IsRound o seq c (err object_too_large) h =
      Yields-done (IsRound o seq c) _ (failed o seq c object_too_large)

  pub put_round-IsRound :
      (o : Object) (seq : ℕ) (c : Cache p) → Yields (put_round p o seq c) (IsRound o seq c)
  unfolding put_round
  put_round-IsRound o seq c =
      after_insert-IsRound o seq c (Store.insert o.key o.val o.size o.now c.store)
        (insert-AddsOne o.key o.val o.size o.now c.store)

  pub remove-Untouched : (key : Key) (c : Cache p) → Yields (remove p key c) (λ r. Untouched c r.0)
  unfolding remove
  remove-Untouched key c = elim (Option-cases (Store.remove key c.store).1) [
    | inl miss ↦
        subst (λ r. Yields r kept) (sym (rw (miss, remove) refl))
          (Yields-done kept (c, false) (same c))
    | inr (e, hit) ↦
        let s = (Store.remove key c.store).0 in
        let rest : Option p.State → Run (Cache p × Bool) =
          λ q. done (record c { store = s; policy = q }, true) in
        let hook = with_policy c.policy (p.on_remove key (some e)) in
        let whole : remove p key c ≡ hook >>= rest = rw (hit, remove) refl in
        subst (λ r. Yields r kept) (sym whole)
          (Yields-bind (λ _. Unit {0}) kept hook rest (any _)
            λ q _.
              Yields-done kept (record c { store = s; policy = q }, true)
                (refl, refl, object_count-remove_le key c.store))
  ]
    where
      kept : Cache p × Bool → Type 0
      kept r = Untouched c r.0
