-- ===== src/Cache/Threads/Rounds.antt =====
-- The loop of Put of cache/core.go as steps of one call, while no other is in flight.
use adaptive_caching.Base.{
  ℕ, suc, ◌≡◌, refl, ap, sym, subst, ◌∙◌, Bool, true, false, Option, none, some, Key, Run, done,
  ◌>>=◌, Yields, Yields-done, Yields-after,
}
use adaptive_caching.Types.{Entry}
use adaptive_caching.Store
use adaptive_caching.Store.{
  Store, Result, Error, ok, err, capacity_exceeded, invalid_size, object_too_large,
}
use adaptive_caching.Events.{Event, type_eviction}
use adaptive_caching.Metrics.{record_eviction}
use adaptive_caching.Policy.{EvictionPolicy}
use adaptive_caching.Cache.{Cache, publish, put_loop, evict_one, evict_key}
use adaptive_caching.Cache.Threads.{
  Shared, Object, Pc, put_insert, have_put, advance, ready, put_round, after_insert, make_room,
  taken, take_chosen, take_found,
}
use adaptive_caching.Cache.Threads.Solo.{steps, LeadsTo, unlocked}

module _ (p : EvictionPolicy) (o : Object) (seq : ℕ) where
  -- At the head of the loop.
  abbrev pub looping : ℕ → Cache p → Run (Shared p × Pc p)
  looping n c = steps p n (put_insert o seq) (record { core = c; locked = true })

  abbrev pub LoopLeadsTo : Cache p → Cache p × Option Error → Type 0
  LoopLeadsTo c r =
      LeadsTo p (put_insert o seq) (record { core = c; locked = true }) (r.0, have_put r.1)

  -- Three steps evict an object, or one ends the call.
  abbrev pub Evicts : Cache p → Cache p × Bool → Type 0
  Evicts c (c', true) = (k : ℕ) → looping (suc (suc (suc k))) c ≡ looping k c'
  Evicts c (c', false) =
      (k : ℕ) → looping (suc (suc k)) c ≡ done (unlocked p c', have_put (some capacity_exceeded))

  module _ (c : Cache p) (s : p.State)
      (no_room : Store.insert o.key o.val o.size o.now c.store ≡ err capacity_exceeded)
      (installed : c.policy ≡ some s) where
    -- The round, once the policy has named a victim.
    round_full :
        (v : p.State × Option Key)
        → p.victim s ≡ done v
        → put_round p o seq c ≡ (take_chosen p v c >>= (λ r. done (taken p o seq r)))
    unfolding put_round after_insert make_room
    round_full v ran =
        ap (after_insert p o seq c) no_room
        ∙ ap (make_room p o seq c) installed
        ∙ ap (λ x. x >>= (λ v. take_chosen p v c >>= (λ r. done (taken p o seq r)))) ran

    found_whole :
        (q : p.State) (k : Key) (x : Option Entry)
        → p.victim s ≡ done (q, some k)
        → (Store.remove k c.store).1 ≡ x
        → Yields (evict_key p seq o.now k q c) (Evicts c)
    unfolding evict_key steps ready advance take_chosen take_found
    found_whole q k none ran e =
        let rest : p.State → Run (Cache p × Bool) =
          λ s'. done (record c { policy = some s' }, false) in
        let whole : evict_key p seq o.now k q c ≡ p.on_remove k none q >>= rest =
          rw (e, evict_key) refl in
        subst (λ (y : Run (Cache p × Bool)). Yields y (Evicts c)) (sym whole)
          (Yields-after (Evicts c) (p.on_remove k none q) rest λ s' ran'.
            Yields-done (Evicts c) _ λ n. rw (round_full (q, some k) ran, e, take_found, ran') refl)
    found_whole q k (some x) ran e =
        let c' : p.State → Cache p = λ s'. record c {
          store = (Store.remove k c.store).0;
          policy = some s';
          metrics = record_eviction x.size c.metrics;
        } in
        let event : Event = record { seq = seq; timestamp = o.now; kind = type_eviction } in
        let rest : p.State → Run (Cache p × Bool) =
          λ s'. publish p event (c' s') >>= (λ c''. done (c'', true)) in
        let whole : evict_key p seq o.now k q c ≡ p.on_remove k (some x) q >>= rest =
          rw (e, evict_key) refl in
        subst (λ (y : Run (Cache p × Bool)). Yields y (Evicts c)) (sym whole)
          (Yields-after (Evicts c) (p.on_remove k (some x) q) rest λ s' ran'.
            Yields-after (Evicts c) (publish p event (c' s')) _ λ c'' ran''.
              Yields-done (Evicts c) (c'', true)
                λ n. rw (round_full (q, some k) ran, e, take_found, ran', ran'') refl)

    chosen_whole :
        (v : p.State × Option Key)
        → p.victim s ≡ done v
        → Yields
            (elim v.1 [
              | none ↦ done (record c { policy = some v.0 }, false)
              | some k ↦ evict_key p seq o.now k v.0 c
            ])
            (Evicts c)
    unfolding steps ready advance take_chosen
    chosen_whole (q, none) ran = Yields-done (Evicts c) _ λ k. rw (round_full (q, none) ran) refl
    chosen_whole (q, some k) ran = found_whole q k (Store.remove k c.store).1 ran refl

    pub evict_whole : Yields (evict_one p seq o.now s c) (Evicts c)
    unfolding evict_one
    evict_whole = Yields-after (Evicts c) (p.victim s) _ chosen_whole

  pub bare_whole :
      (c : Cache p)
      → Store.insert o.key o.val o.size o.now c.store ≡ err capacity_exceeded
      → c.policy ≡ none
      → looping 2 c ≡ done (unlocked p c, have_put (some capacity_exceeded))
  unfolding steps ready advance put_round
  bare_whole c no_room bare =
      let round : put_round p o seq c ≡ done (c, false, have_put (some capacity_exceeded)) =
        ap (after_insert p o seq c) no_room ∙ ap (make_room p o seq c) bare in
      rw round refl

  pub evicted_whole :
      (fuel : ℕ) (c : Cache p) (r : Cache p × Bool)
      → Evicts c r
      → ((c' : Cache p) → Yields (put_loop p fuel seq o.key o.val o.size o.now c') (LoopLeadsTo c'))
      → Yields
          (elim r.1 [
            | true ↦ put_loop p fuel seq o.key o.val o.size o.now r.0
            | false ↦ done (r.0, some capacity_exceeded)
          ])
          (LoopLeadsTo c)
  evicted_whole fuel c (c', true) h ih a e =
      let (n, ran) = ih c' a e in (suc (suc (suc n)), h n ∙ ran)
  evicted_whole fuel c (c', false) h ih a e =
      Yields-done (LoopLeadsTo c) (c', some capacity_exceeded) (2, h 0) a e
