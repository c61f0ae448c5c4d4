-- ===== src/Cache/Threads/Solo.antt =====
-- A call on the cache of cache/core.go while no other is in flight.
use adaptive_caching.Base.{
  ℕ, zero, suc, ◌≡◌, refl, ap, ◌∙◌, Bool, true, false, List, Option, Key, Run, done, done_eq, ◌>>=◌,
  Yields, Yields-after, if◌then◌else◌,
}
use adaptive_caching.Types.{Entry, Time, Value}
use adaptive_caching.Store.{touch, Store}
use adaptive_caching.Events.{Event}
use adaptive_caching.Policy.{EvictionPolicy}
use adaptive_caching.Cache.{
  Cache, access, publish, get, put, remove, clear, set_policy, with_policy,
}
use adaptive_caching.Cache.Threads.{
  Pc, get_start, got, put_start, have_put, remove_lock, removed, clear_lock, cleared, switch_lock,
  switched, Shared, advance, ready, get_locked, publish_if, switch_locked,
}

module _ (p : EvictionPolicy) where
  -- `n` steps of one call; none is made after it has returned.
  unfoldable pub steps : ℕ → Pc p → Shared p → Run (Shared p × Pc p)
  unfolding ready advance
  steps zero t m = done (m, t)
  steps (suc n) t m =
      if ready p t m.locked then advance p t m >>= (λ r. steps n r.1 r.0) else done (m, t)

  abbrev pub unlocked : Cache p → Shared p
  unlocked c = record { core = c; locked = false }

  -- The method that a call is of, with what it returns.
  unfoldable pub whole : Pc p → Cache p → Run (Cache p × Pc p)
  unfolding get put remove clear set_policy
  whole (get_start key start end') c = get p key start end' c >>= (λ r. done (r.0, got r.1))
  whole (put_start o) c = put p o.key o.val o.size o.now c >>= (λ r. done (r.0, have_put r.1))
  whole (remove_lock key) c = remove p key c >>= (λ r. done (r.0, removed r.1))
  whole clear_lock c = done (clear p c, cleared)
  whole (switch_lock entries s) c =
      set_policy p (entries c.store) s c >>= (λ c'. done (c', switched))
  whole t c = done (c, t)

  -- The steps lead where the method leads.
  abbrev pub LeadsTo : Pc p → Shared p → Cache p × Pc p → Type 0
  LeadsTo t m r = (n : ℕ) × (steps n t m ≡ done (unlocked r.0, r.1))

  publish_if-eq :
      (b : Bool) (e : Event) (c : Cache p)
      → publish_if p b e c ≡ (if b then publish p e c else done c)
  unfolding publish_if
  publish_if-eq true e c = refl
  publish_if-eq false e c = refl

  abbrev with_value : Cache p × Option Value → Shared p × Pc p
  with_value r = (unlocked r.0, got r.1)

  abbrev paired : Option Value → Cache p → Cache p × Option Value
  paired v c = (c, v)

  last_step :
      (r : Run (Cache p)) (v : Option Value)
      → ((r >>= (λ (c : Cache p). done (with_value (c, v))))
          >>= (λ (x : Shared p × Pc p). done (x.0, x.1)))
        ≡ ((r >>= (λ (c : Cache p). done (paired v c)))
            >>= (λ (x : Cache p × Option Value). done (with_value x)))
  last_step (done c) v = refl
  last_step Run.panic v = refl
  last_step Run.out_of_fuel v = refl

  pub get_whole :
      (key : Key) (start end' : Time) (c : Cache p)
      → Yields
          (get p key start end' c)
          (λ r. LeadsTo (get_start key start end') (unlocked c) (r.0, got r.1))
  unfolding get steps ready advance get_locked
  get_whole key start end' c =
      let touched = touch key start c.store in
      Yields-after (λ r. LeadsTo (get_start key start end') (unlocked c) (r.0, got r.1))
        (access p key touched.1 c.policy) _
        λ s ran r e. (
          4,
          rw (ran, publish_if-eq)
              (last_step _ _
                ∙ ap
                    (λ (x : Run (Cache p × Option Value)).
                      x >>= (λ (y : Cache p × Option Value). done (with_value y)))
                    e),
        )

  pub switch_whole :
      (entries : Store → List Entry) (s : Option p.State) (c : Cache p)
      → Yields
          (set_policy p (entries c.store) s c)
          (λ c'. LeadsTo (switch_lock entries s) (unlocked c) (c', switched))
  unfolding set_policy steps ready advance switch_locked
  switch_whole entries s c =
      Yields-after (λ c'. LeadsTo (switch_lock entries s) (unlocked c) (c', switched))
        (with_policy s (λ q. p.rebuild (entries c.store) (p.reset q))) _
        λ q ran r e. (2, rw ran (ap (λ (c : Cache p). done (unlocked c, switched)) (done_eq e)))

  pub remove_whole :
      (key : Key) (c : Cache p)
      → Yields (remove p key c) (λ r. LeadsTo (remove_lock key) (unlocked c) (r.0, removed r.1))
  unfolding steps ready advance
  remove_whole key c r e = (1, rw e refl)
