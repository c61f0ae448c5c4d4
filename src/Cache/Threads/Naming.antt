-- ===== src/Cache/Threads/Naming.antt =====
-- SetPolicy of cache/core.go among calls in flight, and the policy that the collector names.
use adaptive_caching.Base.{
  ℕ, ◌+◌, ◌≤◌, ◌≡◌, refl, sym, subst, ◌∙◌, ap, List, [], ◌∷◌, ◌++◌, arith, none, some, Option, true,
  done, done_eq,
}
use adaptive_caching.Types.{Entry}
use adaptive_caching.Store.{Store}
use adaptive_caching.Metrics.{
  record_request, record_fetch, record_eviction, set_policy as note_policy,
}
use adaptive_caching.Policy.{EvictionPolicy, PolicyName}
use adaptive_caching.Cache.{policy_name, clear}
use adaptive_caching.Cache.Threads.{
  Pc, switch_lock, switch_note, switched, Shared, System, Step, begins, moves, Reach, here, next,
  advance, ready, is_start,
}
use adaptive_caching.Cache.Threads.Tally.{total, total-middle}
use adaptive_caching.Cache.Threads.Sections.{stores, evicts, fails}
use adaptive_caching.Cache.Threads.Effects.{
  Effect, advance-Effect, gets, records, publishes, rounds, publishes_eviction, removes, switches,
  notes,
}
use adaptive_caching.Cache.Threads.Names.{KeepsName, in_switch, advance-name, switch-name}

module _ (p : EvictionPolicy) where
  -- Between the mutex and the collector.
  abbrev pub untold : Pc p → ℕ
  untold (switch_note name) = 1
  untold t = 0

  -- What the call will tell the collector is true of the installed policy.
  abbrev IsTrue : PolicyName → Pc p → Type 0
  IsTrue n (switch_note name) = name ≡ n
  IsTrue n t = Unit

  abbrev AllTrue : PolicyName → List (Pc p) → Type 0
  AllTrue n [] = Unit
  AllTrue n (t ∷ ts) = IsTrue n t × AllTrue n ts

  AllTrue-middle :
      (n : PolicyName) (before after : List (Pc p)) (t : Pc p)
      → AllTrue n (before ++ t ∷ after)
      → IsTrue n t
  AllTrue-middle n [] after t h = h.0
  AllTrue-middle n (x ∷ before) after t h = AllTrue-middle n before after t h.1

  AllTrue-replace :
      (n : PolicyName) (before after : List (Pc p)) (t t' : Pc p)
      → AllTrue n (before ++ t ∷ after)
      → IsTrue n t'
      → AllTrue n (before ++ t' ∷ after)
  AllTrue-replace n [] after t t' h h' = (h', h.1)
  AllTrue-replace n (x ∷ before) after t t' h h' = (h.0, AllTrue-replace n before after t t' h.1 h')

  quiet-IsTrue : (n : PolicyName) (t : Pc p) → in_switch p t ≡ 0 → IsTrue n t
  quiet-IsTrue n (switch_note name) h = absurd (omega arith)
  quiet-IsTrue n t h = tt

  quiet-AllTrue : (n : PolicyName) (l : List (Pc p)) → total (in_switch p) l ≡ 0 → AllTrue n l
  quiet-AllTrue n [] h = tt
  quiet-AllTrue n (t ∷ ts) h = (quiet-IsTrue n t (omega arith), quiet-AllTrue n ts (omega arith))

  abbrev named : System p → PolicyName
  named s = policy_name p s.shared.core.policy

  record IsConsistent (s : System p) : Type 0 where
    one : total (in_switch p) s.calls ≤ 1
    pending : AllTrue (named s) s.calls
    told : total untold s.calls ≡ 0 → s.shared.core.metrics.policy ≡ named s

  -- The other steps: the collector keeps its name of the policy, and no SetPolicy begins or ends.
  Effect-quiet :
      {m m' : Shared p} {t t' : Pc p}
      → Effect p m t m' t'
      → in_switch p t ≡ 0
      → (m'.core.metrics.policy ≡ m.core.metrics.policy) × (in_switch p t' ≡ 0)
  unfolding clear record_request record_fetch record_eviction
  Effect-quiet (gets key start end' seq c x h u) q = (ap (λ k. k.policy) u.1, refl)
  Effect-quiet (records key start end' seq none) q = (refl, refl)
  Effect-quiet (records key start end' seq (some e)) q = (refl, refl)
  Effect-quiet (publishes start seq c x u) q = (ap (λ k. k.policy) u.1, refl)
  Effect-quiet (rounds o seq c _ _ u (stores l)) q = (ap (λ k. k.policy) u.1, refl)
  Effect-quiet (rounds o seq c _ _ u (evicts x l)) q = (ap (λ k. k.policy) u.1, refl)
  Effect-quiet (rounds o seq c _ _ u (fails x l)) q = (ap (λ k. k.policy) u.1, refl)
  Effect-quiet (publishes_eviction o seq c u) q = (ap (λ k. k.policy) u.1, refl)
  Effect-quiet (removes key c found h u) q = (ap (λ k. k.policy) u.1, refl)
  Effect-quiet (switches entries s c name h u) q = absurd (omega arith)
  Effect-quiet (notes name) q = absurd (omega arith)
  Effect-quiet f q = (refl, refl)

  -- A SetPolicy may begin while no other is in flight.
  abbrev pub OneSwitch : List (Pc p) → Pc p → Type 0
  OneSwitch l t = in_switch p t + total (in_switch p) l ≤ 1

  untold-le : (t : Pc p) → untold t ≤ in_switch p t
  untold-le (switch_note name) = omega arith
  untold-le (switch_lock entries s) = omega arith
  untold-le t = omega arith

  -- The sums before and after a step.
  replaced :
      (before after : List (Pc p)) (t t' : Pc p) (s : System p)
      → s.calls ≡ before ++ t ∷ after
      → (total (in_switch p) (before ++ t' ∷ after) + in_switch p t
          ≡ total (in_switch p) s.calls + in_switch p t')
        × (total untold (before ++ t' ∷ after) + untold t ≡ total untold s.calls + untold t')
  replaced before after t t' s e = (
    omega (
      arith,
      ap (total (in_switch p)) e,
      total-middle (in_switch p) before after t,
      total-middle (in_switch p) before after t',
    ),
    omega (
      arith,
      ap (total untold) e,
      total-middle untold before after t,
      total-middle untold before after t',
    ),
  )

module _ {p : EvictionPolicy} (keeps : KeepsName p) where
  quiet_move :
      (before after : List (Pc p)) (t : Pc p) (s : System p) (m : Shared p) (t' : Pc p)
      → in_switch p t ≡ 0
      → s.calls ≡ before ++ t ∷ after
      → ready p t s.shared.locked ≡ true
      → advance p t s.shared ≡ done (m, t')
      → IsConsistent p s
      → IsConsistent p (record { shared = m; calls = before ++ t' ∷ after })
  quiet_move before after t s m t' q e rdy ran c =
      let same = advance-name keeps t s.shared q (m, t') ran in
      let quiet = Effect-quiet p (advance-Effect p t s.shared rdy (m, t') ran) q in
      let calm = quiet.1 in
      let sums = replaced p before after t t' s e in
      record {
        one = omega (arith, c.one, sums, calm, q);
        pending =
            subst (λ n. AllTrue p n (before ++ t' ∷ after)) (sym same)
              (AllTrue-replace p (named p s) before after t t'
                (subst (AllTrue p (named p s)) e c.pending) (quiet-IsTrue p (named p s) t' calm));
        told = λ h.
            quiet.0
            ∙ c.told (omega (arith, sums, h, q, calm, untold-le p t, untold-le p t'))
            ∙ sym same;
      }

  switch_move :
      (before after : List (Pc p)) (entries : Store → List Entry) (o : Option p.State)
      (s : System p) (m : Shared p) (t' : Pc p)
      → s.calls ≡ before ++ switch_lock entries o ∷ after
      → ready p (switch_lock entries o) s.shared.locked ≡ true
      → advance p (switch_lock entries o) s.shared ≡ done (m, t')
      → IsConsistent p s
      → IsConsistent p (record { shared = m; calls = before ++ t' ∷ after })
  switch_move before after entries o s m t' e rdy ran c =
      let (note, same) = switch-name keeps entries o s.shared (m, t') ran in
      let n = policy_name p m.core.policy in
      let sums = replaced p before after (switch_lock entries o) t' s e in
      let others = total-middle (in_switch p) before after switched in
      record {
        one = omega (arith, c.one, sums, ap (in_switch p) note);
        pending =
            AllTrue-replace p n before after switched t'
              (quiet-AllTrue p n (before ++ switched ∷ after) (
                omega (
                  arith,
                  c.one,
                  ap (total (in_switch p)) e,
                  others,
                  total-middle (in_switch p) before after (switch_lock entries o),
                )))
              (subst (IsTrue p n) (sym note) refl);
        told = λ h.
            absurd (omega (arith, h, ap (untold p) note, total-middle (untold p) before after t'));
      }

  note_move :
      (before after : List (Pc p)) (name : PolicyName) (s : System p) (m : Shared p) (t' : Pc p)
      → s.calls ≡ before ++ switch_note name ∷ after
      → advance p (switch_note name) s.shared ≡ done (m, t')
      → IsConsistent p s
      → IsConsistent p (record { shared = m; calls = before ++ t' ∷ after })
  unfolding advance note_policy
  note_move before after name s m t' e ran c =
      let left = done_eq ran in
      let same = ap (λ r. policy_name p r.0.core.policy) left in
      let last = ap (λ r. r.1) left in
      let said =
        AllTrue-middle p (named p s) before after (switch_note name)
          (subst (AllTrue p (named p s)) e c.pending) in
      let sums = replaced p before after (switch_note name) t' s e in
      record {
        one = omega (arith, c.one, sums, ap (in_switch p) last);
        pending =
            subst (λ n. AllTrue p n (before ++ t' ∷ after)) same
              (AllTrue-replace p (named p s) before after (switch_note name) t'
                (subst (AllTrue p (named p s)) e c.pending) (subst (IsTrue p (named p s)) last tt));
        told = λ h. sym (ap (λ r. r.0.core.metrics.policy) left) ∙ said ∙ same;
      }

  moved :
      (before after : List (Pc p)) (t : Pc p) (s : System p) (m : Shared p) (t' : Pc p)
      → s.calls ≡ before ++ t ∷ after
      → ready p t s.shared.locked ≡ true
      → advance p t s.shared ≡ done (m, t')
      → IsConsistent p s
      → IsConsistent p (record { shared = m; calls = before ++ t' ∷ after })
  moved before after (switch_lock entries o) s m t' e rdy ran c =
      switch_move before after entries o s m t' e rdy ran c
  moved before after (switch_note name) s m t' e rdy ran c =
      note_move before after name s m t' e ran c
  moved before after t s m t' e rdy ran c = quiet_move before after t s m t' refl e rdy ran c

  start_told : (n : PolicyName) (t : Pc p) → is_start p t ≡ true → (untold p t ≡ 0) × IsTrue p n t
  unfolding is_start
  start_told n (switch_note name) h = absurd (ground arith)
  start_told n t h = (refl, tt)

  Step-IsConsistent :
      {s s' : System p} → Step p (OneSwitch p) s s' → IsConsistent p s → IsConsistent p s'
  Step-IsConsistent {s = s} (begins t st a) c =
      let (silent, true') = start_told (named p s) t st in
      record {
        one = a;
        pending = (true', c.pending);
        told = λ h. c.told (omega (arith, h, silent));
      }
  Step-IsConsistent {s = s} (moves before after t m t' e rdy ran) c =
      moved before after t s m t' e rdy ran c

  Reach-IsConsistent :
      {s s' : System p} → Reach p (OneSwitch p) s s' → IsConsistent p s → IsConsistent p s'
  Reach-IsConsistent here c = c
  Reach-IsConsistent (next r st) c = Step-IsConsistent st (Reach-IsConsistent r c)

  -- As long as no two calls of SetPolicy are in flight together, and the policies' hooks leave their
  -- names as they are: however the other calls interleave, whenever no SetPolicy is between the mutex
  -- and the collector, the collector names the policy that is installed, if it did so when no call
  -- was in flight.
  pub Reach-named :
      (s s' : System p)
      → s.calls ≡ []
      → s.shared.core.metrics.policy ≡ policy_name p s.shared.core.policy
      → Reach p (OneSwitch p) s s'
      → total (untold p) s'.calls ≡ 0
      → s'.shared.core.metrics.policy ≡ policy_name p s'.shared.core.policy
  Reach-named s s' none_yet agrees r quiet =
      let at_first : IsConsistent p s = record {
        one = omega (arith, ap (total (in_switch p)) none_yet);
        pending = subst (AllTrue p (named p s)) (sym none_yet) tt;
        told = λ _. agrees;
      } in
      (Reach-IsConsistent r at_first).told quiet
