-- ===== src/Cache/Threads/Whole.antt =====
-- The methods of cache/core.go against their steps, while no other call is in flight.
use adaptive_caching.Base.{
  ℕ, zero, suc, ◌≡◌, refl, ap, sym, subst, ◌∙◌, Bool, true, false, Option, none, some, arith, Run,
  done, done_eq, ◌>>=◌, Yields, Yields-done, Yields-bind, Yields-after, Returns, Bool-cases, inl,
  inr,
}
use adaptive_caching.Types.{Entry}
use adaptive_caching.Store
use adaptive_caching.Store.{
  Store, Result, Error, ok, err, capacity_exceeded, invalid_size, object_too_large, object_count,
}
use adaptive_caching.Policy.{EvictionPolicy, View, IsLawful}
use adaptive_caching.Cache.Invariant.{IsValid}
use adaptive_caching.Cache.Serving.{get-IsValid, remove-IsValid}
use adaptive_caching.Cache.Switching.{set_policy-IsValid}
use adaptive_caching.Cache.History.{put-IsValid}
use adaptive_caching.Cache.Threads.Invariant.{IsProper}
use adaptive_caching.Metrics.{record_fetch}
use adaptive_caching.Cache.{
  Cache, get, remove, set_policy, put, put_loop, evict_one, inserted, with_policy, admits, next_seq,
}
use adaptive_caching.Cache.Threads.{
  Object, Pc, put_start, get_start, remove_lock, clear_lock, switch_lock, have_put, got, removed,
  switched, advance, ready, put_round, after_insert, is_start,
}
use adaptive_caching.Cache.Threads.Solo.{
  steps, LeadsTo, unlocked, whole, get_whole, remove_whole, switch_whole,
}
use adaptive_caching.Cache.Threads.Rounds.{
  LoopLeadsTo, looping, evict_whole, evicted_whole, bare_whole, Evicts,
}

module _ (p : EvictionPolicy) (o : Object) (seq : ℕ) where
  abbrev loop : ℕ → Cache p → Run (Cache p × Option Error)
  loop fuel c = put_loop p fuel seq o.key o.val o.size o.now c

  -- The store has taken the object.
  stored_whole :
      (fuel : ℕ) (c : Cache p) (x : Store × Entry)
      → Store.insert o.key o.val o.size o.now c.store ≡ ok x
      → Yields (loop (suc fuel) c) (LoopLeadsTo p o seq c)
  unfolding put_loop inserted steps ready advance put_round
  stored_whole fuel c x e =
      let rest : Option p.State → Run (Cache p) =
        λ s. done (record c { store = x.0; policy = s; metrics = record_fetch o.size c.metrics }) in
      let hook = with_policy c.policy (p.on_insert o.key x.1) in
      let opened : loop (suc fuel) c ≡ (hook >>= rest) >>= (λ c'. done (c', none)) =
        rw (e, put_loop) refl in
      subst (λ (y : Run (Cache p × Option Error)). Yields y (LoopLeadsTo p o seq c)) (sym opened)
        (Yields-bind (λ c'. looping p o seq 3 c ≡ done (unlocked p c', have_put none))
          (LoopLeadsTo p o seq c) (hook >>= rest) _
          (Yields-after (λ c'. looping p o seq 3 c ≡ done (unlocked p c', have_put none)) hook rest
            λ s ran.
              Yields-done (λ c'. looping p o seq 3 c ≡ done (unlocked p c', have_put none)) _
                (rw (e, after_insert, ran) refl))
          λ c' h. Yields-done (LoopLeadsTo p o seq c) (c', none) (3, h))

  failed_whole :
      (fuel : ℕ) (c : Cache p) (x : Error)
      → loop (suc fuel) c ≡ done (c, some x)
      → put_round p o seq c ≡ done (c, false, have_put (some x))
      → Yields (loop (suc fuel) c) (LoopLeadsTo p o seq c)
  unfolding steps ready advance
  failed_whole fuel c x e h =
      subst (λ (y : Run (Cache p × Option Error)). Yields y (LoopLeadsTo p o seq c)) (sym e)
        (Yields-done (LoopLeadsTo p o seq c) (c, some x) (2, rw h refl))

  full_whole :
      (fuel : ℕ) (c : Cache p) (s : Option p.State)
      → Store.insert o.key o.val o.size o.now c.store ≡ err capacity_exceeded
      → c.policy ≡ s
      → ((c' : Cache p) → Yields (loop fuel c') (LoopLeadsTo p o seq c'))
      → Yields (loop (suc fuel) c) (LoopLeadsTo p o seq c)
  unfolding put_loop
  full_whole fuel c none e bare ih =
      let opened : loop (suc fuel) c ≡ done (c, some capacity_exceeded) = ground arith in
      subst (λ (y : Run (Cache p × Option Error)). Yields y (LoopLeadsTo p o seq c)) (sym opened)
        (Yields-done (LoopLeadsTo p o seq c) _ (2, bare_whole p o seq c e bare))
  full_whole fuel c (some s) e installed ih =
      let again : Cache p × Bool → Run (Cache p × Option Error) =
        λ r. elim r.1 [ true ↦ loop fuel r.0 | false ↦ done (r.0, some capacity_exceeded) ] in
      let branch : Option p.State → Run (Cache p × Option Error) = λ q. elim q [
        | none ↦ done (c, some capacity_exceeded)
        | some s' ↦ evict_one p seq o.now s' c >>= again
      ] in
      let opened : loop (suc fuel) c ≡ evict_one p seq o.now s c >>= again =
        rw (e, put_loop) (ap branch installed) in
      subst (λ (y : Run (Cache p × Option Error)). Yields y (LoopLeadsTo p o seq c)) (sym opened)
        (Yields-bind (Evicts p o seq c) (LoopLeadsTo p o seq c) (evict_one p seq o.now s c) again
          (evict_whole p o seq c s e installed) λ r h. evicted_whole p o seq fuel c r h ih)

  round_whole :
      (fuel : ℕ) (c : Cache p) (x : Result (Store × Entry))
      → Store.insert o.key o.val o.size o.now c.store ≡ x
      → ((c' : Cache p) → Yields (loop fuel c') (LoopLeadsTo p o seq c'))
      → Yields (loop (suc fuel) c) (LoopLeadsTo p o seq c)
  unfolding put_loop put_round
  round_whole fuel c (ok x) e ih = stored_whole fuel c x e
  round_whole fuel c (err capacity_exceeded) e ih = full_whole fuel c c.policy e refl ih
  round_whole fuel c (err invalid_size) e ih =
      failed_whole fuel c invalid_size (rw (e, put_loop) refl) (ap (after_insert p o seq c) e)
  round_whole fuel c (err object_too_large) e ih =
      failed_whole fuel c object_too_large (rw (e, put_loop) refl) (ap (after_insert p o seq c) e)

  loop_whole : (fuel : ℕ) (c : Cache p) → Yields (loop fuel c) (LoopLeadsTo p o seq c)
  unfolding put_loop
  loop_whole zero c r e = absurd (ground arith)
  loop_whole (suc fuel) c r e =
      round_whole fuel c (Store.insert o.key o.val o.size o.now c.store) refl (loop_whole fuel) r e

module _ (p : EvictionPolicy) where
  put_whole :
      (o : Object) (c : Cache p)
      → Yields
          (put p o.key o.val o.size o.now c)
          (λ r. LeadsTo p (put_start o) (unlocked p c) (r.0, have_put r.1))
  unfolding put steps ready advance
  put_whole o c r e = elim (Bool-cases (admits p o.key o.size c.policy)) [
    | inl yes' ↦
        let c' : Cache p = record c { seq = next_seq p c } in
        let opened : put p o.key o.val o.size o.now c
            ≡ put_loop p (suc (object_count c.store)) (next_seq p c) o.key o.val o.size o.now c' =
          rw (yes', put) refl in
        let (n, ran) =
          loop_whole p o (next_seq p c) (suc (object_count c.store)) c' r (sym opened ∙ e) in
        (suc (suc n), rw yes' ran)
    | inr no' ↦
        let opened : put p o.key o.val o.size o.now c
            ≡ done (record c { seq = next_seq p c }, none) =
          rw (no', put) refl in
        (
          3,
          rw no' (
              ap (λ (r : Cache p × Option Error). done (unlocked p r.0, have_put r.1))
                (done_eq (sym opened ∙ e))),
        )
  ]

  -- A method that answers.
  answered :
      {A : Type 0} (t : Pc p) (c : Cache p) (r : Run (Cache p × A)) (answer : A → Pc p)
      → Yields r (λ x. LeadsTo p t (unlocked p c) (x.0, answer x.1))
      → Yields (r >>= (λ x. done (x.0, answer x.1))) (LeadsTo p t (unlocked p c))
  answered t c r answer h =
      Yields-bind (λ x. LeadsTo p t (unlocked p c) (x.0, answer x.1)) (LeadsTo p t (unlocked p c)) r
        _ h λ x l. Yields-done (LeadsTo p t (unlocked p c)) (x.0, answer x.1) l

  whole-LeadsTo :
      (t : Pc p) (c : Cache p)
      → is_start p t ≡ true
      → Yields (whole p t c) (LeadsTo p t (unlocked p c))
  unfolding whole is_start steps ready advance
  whole-LeadsTo (get_start key start end') c h = answered _ c _ got (get_whole p key start end' c)
  whole-LeadsTo (put_start o) c h = answered _ c _ have_put (put_whole o c)
  whole-LeadsTo (remove_lock key) c h = answered _ c _ removed (remove_whole p key c)
  whole-LeadsTo clear_lock c h = Yields-done (LeadsTo p clear_lock (unlocked p c)) _ (1, refl)
  whole-LeadsTo (switch_lock entries s) c h =
      Yields-bind (λ c'. LeadsTo p (switch_lock entries s) (unlocked p c) (c', switched))
        (LeadsTo p (switch_lock entries s) (unlocked p c)) (set_policy p (entries c.store) s c) _
        (switch_whole p entries s c)
        λ c' l. Yields-done (LeadsTo p (switch_lock entries s) (unlocked p c)) (c', switched) l
  whole-LeadsTo t c h = absurd (ground arith)

module _ {p : EvictionPolicy} {view : View p} (law : IsLawful p view) where
  abbrev answer_with : {A : Type 0} → (A → Pc p) → Cache p × A → Run (Cache p × Pc p)
  answer_with answer x = done (x.0, answer x.1)

  returned :
      {A : Type 0} {P : Cache p × A → Type 0} (r : Run (Cache p × A)) (answer : A → Pc p)
      → Returns r P
      → Returns (r >>= answer_with answer) (λ _. Unit {0})
  returned r answer (x, ran, h) = ((x.0, answer x.1), rw ran refl, tt)

  whole-Returns :
      (t : Pc p) (c : Cache p)
      → IsValid law c
      → is_start p t ≡ true
      → IsProper law t
      → Returns (whole p t c) (λ _. Unit {0})
  unfolding whole is_start
  whole-Returns (get_start key start end') c v st ok' =
      returned (get p key start end' c) got (get-IsValid law key start end' c v)
  whole-Returns (put_start o) c v st ok' =
      returned (put p o.key o.val o.size o.now c) have_put
        (put-IsValid law o.key o.val o.size o.now c c.policy refl v ok'.0 ok'.1)
  whole-Returns (remove_lock key) c v st ok' =
      returned (remove p key c) removed (remove-IsValid law key c v)
  whole-Returns clear_lock c v st ok' = (_, refl, tt)
  whole-Returns (switch_lock entries s) c v st ok' =
      let (c', ran, _) =
        set_policy-IsValid law (entries c.store) s c v (ok' c.store v.store_valid) in
      ((c', switched), rw ran refl, tt)
  whole-Returns t c v st ok' = absurd (ground arith)

  -- On a valid cache a call of Get, Put, Remove, Clear or SetPolicy returns, and cut into its steps
  -- and run with no other call in between it leads to the same state and the same result. What is
  -- put has a size that is an int64 and a key that the policy can hold.
  pub steps-whole :
      (t : Pc p) (c : Cache p)
      → IsValid law c
      → is_start p t ≡ true
      → IsProper law t
      → Returns
          (whole p t c)
          (λ r. (n : ℕ) × (steps p n t (unlocked p c) ≡ done (unlocked p r.0, r.1)))
  steps-whole t c v st ok' =
      let (r, ran, _) = whole-Returns t c v st ok' in (r, ran, whole-LeadsTo p t c st r ran)
