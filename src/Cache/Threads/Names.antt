-- ===== src/Cache/Threads/Names.antt =====
-- The name of the installed policy through the parts of the calls of cache/core.go.
use adaptive_caching.Base.{
  ◌≡◌, refl, sym, subst, ◌∙◌, ap, inl, inr, Bool, true, false, List, Option, none, some, Key, Run,
  done, Yields, Yields-done, Yields-bind, Yields-after, ◌>>=◌, Option-cases, ℕ, arith,
  if◌then◌else◌,
}
use adaptive_caching.Types.{Entry, Time}
use adaptive_caching.Store
use adaptive_caching.Store.{
  Store, Result, ok, err, capacity_exceeded, invalid_size, object_too_large, touch,
}
use adaptive_caching.Events.{Event}
use adaptive_caching.Policy.{EvictionPolicy, PolicyName}
use adaptive_caching.Cache.{
  Cache, access, with_policy, publish, publish_to, remove, clear, policy_name, sampled, admits,
}
use adaptive_caching.Cache.Threads.{
  Object, Pc, switch_lock, Shared, advance, get_locked, publish_if, take_found, take_chosen, taken,
  make_room, after_insert, put_round, switch_locked, get_lock, get_publish, put_lock, put_insert,
  put_publish, put_fetch, have_put, remove_lock, clear_lock, switch_note, get_event,
}
use adaptive_caching.Cache.Threads.Sections.{Untouched, switch_locked-Untouched}

-- No hook of the policy changes its name.
pub record KeepsName (p : EvictionPolicy) : Type 0 where
  pub access_name :
      (k : Key) (e : Entry) (s : p.State) → Yields (p.on_access k e s) (λ s'. p.name s' ≡ p.name s)
  pub insert_name :
      (k : Key) (e : Entry) (s : p.State) → Yields (p.on_insert k e s) (λ s'. p.name s' ≡ p.name s)
  pub remove_name :
      (k : Key) (o : Option Entry) (s : p.State)
      → Yields (p.on_remove k o s) (λ s'. p.name s' ≡ p.name s)
  pub victim_name : (s : p.State) → Yields (p.victim s) (λ r. p.name r.0 ≡ p.name s)
  pub reset_name : (s : p.State) → p.name (p.reset s) ≡ p.name s

module _ (p : EvictionPolicy) where
  -- A SetPolicy that is in flight.
  abbrev pub in_switch : Pc p → ℕ
  in_switch (switch_lock entries s) = 1
  in_switch (switch_note name) = 1
  in_switch t = 0

module _ {p : EvictionPolicy} (keeps : KeepsName p) where
  abbrev named : Cache p → PolicyName
  named c = policy_name p c.policy

  -- The policy is still one of that name.
  abbrev pub IsNamed : PolicyName → Cache p → Type 0
  IsNamed n c = policy_name p c.policy ≡ n

  hook_name :
      (o : Option p.State) (f : p.State → Run p.State)
      → ((q : p.State) → Yields (f q) (λ q'. p.name q' ≡ p.name q))
      → Yields (with_policy o f) (λ o'. policy_name p o' ≡ policy_name p o)
  unfolding policy_name
  hook_name none f h = Yields-done (λ o'. policy_name p o' ≡ policy_name p none) none refl
  hook_name (some q) f h =
      Yields-bind (λ q'. p.name q' ≡ p.name q) (λ o'. policy_name p o' ≡ policy_name p (some q))
        (f q) _ (h q)
        λ q' e. Yields-done (λ o'. policy_name p o' ≡ policy_name p (some q)) (some q') e

  access-name :
      (key : Key) (e : Option Entry) (o : Option p.State)
      → Yields (access p key e o) (λ o'. policy_name p o' ≡ policy_name p o)
  unfolding access
  access-name key none o = Yields-done (λ o'. policy_name p o' ≡ policy_name p o) o refl
  access-name key (some e) o = hook_name o (p.on_access key e) (keeps.access_name key e)

  publish-name : (e : Event) (c : Cache p) → Yields (publish p e c) (IsNamed (named c))
  unfolding publish
  publish-name e c =
      Yields-after (IsNamed (named c)) (publish_to e c.bus) _
        λ b _. Yields-done (IsNamed (named c)) (record c { bus = b }) refl

  publish_if-name :
      (b : Bool) (e : Event) (c : Cache p) → Yields (publish_if p b e c) (IsNamed (named c))
  unfolding publish_if
  publish_if-name true e c = publish-name e c
  publish_if-name false e c = Yields-done (IsNamed (named c)) c refl

  get_locked-name :
      (key : Key) (start : Time) (c : Cache p)
      → Yields (get_locked p key start c) (λ r. IsNamed (named c) r.0)
  unfolding get_locked
  get_locked-name key start c =
      let (s, e) = touch key start c.store in
      Yields-bind (λ q. policy_name p q ≡ named c) (λ r. IsNamed (named c) r.0)
        (access p key e c.policy) _ (access-name key e c.policy)
        λ q h. Yields-done (λ r. IsNamed (named c) r.0) (record c { store = s; policy = q }, e) h

  remove-name : (key : Key) (c : Cache p) → Yields (remove p key c) (λ r. IsNamed (named c) r.0)
  unfolding remove
  remove-name key c = elim (Option-cases (Store.remove key c.store).1) [
    | inl miss ↦
        subst (λ r. Yields r kept) (sym (rw (miss, remove) refl)) (Yields-done kept (c, false) refl)
    | inr (e, hit) ↦
        let s = (Store.remove key c.store).0 in
        let rest : Option p.State → Run (Cache p × Bool) =
          λ q. done (record c { store = s; policy = q }, true) in
        let hook = with_policy c.policy (p.on_remove key (some e)) in
        let whole : remove p key c ≡ hook >>= rest = rw (hit, remove) refl in
        subst (λ r. Yields r kept) (sym whole)
          (Yields-bind (λ q. policy_name p q ≡ named c) kept hook rest
            (hook_name c.policy (p.on_remove key (some e)) (keeps.remove_name key (some e)))
            λ q h. Yields-done kept (record c { store = s; policy = q }, true) h)
  ]
    where
      kept : Cache p × Bool → Type 0
      kept r = IsNamed (named c) r.0

  clear-name : (c : Cache p) → IsNamed (named c) (clear p c)
  unfolding clear policy_name
  clear-name c =
      elim c.policy
        as (λ o.
          policy_name p (elim o [ none ↦ none | some s ↦ some (p.reset s) ]) ≡ policy_name p o) [
            | none ↦ refl
            | some s ↦ keeps.reset_name s
          ]

  switch_locked-name :
      (es : List Entry) (s : Option p.State) (c : Cache p)
      → Yields (switch_locked p es s c) (λ r. IsNamed r.1 r.0)
  unfolding switch_locked
  switch_locked-name es s c =
      Yields-after (λ r. IsNamed r.1 r.0) (with_policy s (λ q. p.rebuild es (p.reset q))) _
        λ q _. Yields-done (λ r. IsNamed r.1 r.0) (record c { policy = q }, policy_name p q) refl

  take_found-name :
      (k : Key) (s : p.State) (r : Store × Option Entry) (c : Cache p)
      → Yields (take_found p k s r c) (λ x. IsNamed (p.name s) x.0)
  unfolding take_found policy_name
  take_found-name k s (store, none) c =
      Yields-bind (λ q. p.name q ≡ p.name s) (λ x. IsNamed (p.name s) x.0) (p.on_remove k none s) _
        (keeps.remove_name k none s)
        λ q h. Yields-done (λ x. IsNamed (p.name s) x.0) (record c { policy = some q }, none) h
  take_found-name k s (store, some e) c =
      Yields-bind (λ q. p.name q ≡ p.name s) (λ x. IsNamed (p.name s) x.0)
        (p.on_remove k (some e) s) _ (keeps.remove_name k (some e) s)
        λ q h.
          Yields-done (λ x. IsNamed (p.name s) x.0)
            (record c { store = store; policy = some q }, some e) h

  take_chosen-name :
      (v : p.State × Option Key) (c : Cache p)
      → Yields (take_chosen p v c) (λ x. IsNamed (p.name v.0) x.0)
  unfolding take_chosen policy_name
  take_chosen-name (s, none) c =
      Yields-done (λ x. IsNamed (p.name s) x.0) (record c { policy = some s }, none) refl
  take_chosen-name (s, some k) c = take_found-name k s (Store.remove k c.store) c

  taken-name :
      (n : PolicyName) (o : Object) (seq : ℕ) (r : Cache p × Option Entry)
      → IsNamed n r.0
      → IsNamed n (taken p o seq r).0
  taken-name n o seq (c, none) h = h
  taken-name n o seq (c, some e) h = h

  make_room-name :
      (o : Object) (seq : ℕ) (c : Cache p) (s : Option p.State)
      → c.policy ≡ s
      → Yields (make_room p o seq c s) (λ r. IsNamed (named c) r.0)
  unfolding make_room policy_name
  make_room-name o seq c none i = Yields-done (λ r. IsNamed (named c) r.0) _ refl
  make_room-name o seq c (some s) i =
      Yields-bind (λ v. p.name v.0 ≡ p.name s) (λ r. IsNamed (named c) r.0) (p.victim s) _
        (keeps.victim_name s)
        λ v e.
          Yields-bind (λ x. IsNamed (p.name v.0) x.0) (λ r. IsNamed (named c) r.0)
            (take_chosen p v c) _ (take_chosen-name v c)
            λ r h.
              Yields-done (λ r. IsNamed (named c) r.0) (taken p o seq r)
                (taken-name (named c) o seq r (h ∙ e ∙ sym (ap (policy_name p) i)))

  after_insert-name :
      (o : Object) (seq : ℕ) (c : Cache p) (r : Result (Store × Entry))
      → Yields (after_insert p o seq c r) (λ x. IsNamed (named c) x.0)
  unfolding after_insert
  after_insert-name o seq c (ok (store, e)) =
      Yields-bind (λ q. policy_name p q ≡ named c) (λ x. IsNamed (named c) x.0)
        (with_policy c.policy (p.on_insert o.key e)) _
        (hook_name c.policy (p.on_insert o.key e) (keeps.insert_name o.key e))
        λ q h. Yields-done (λ x. IsNamed (named c) x.0) (_, true, put_fetch o.size) h
  after_insert-name o seq c (err capacity_exceeded) = make_room-name o seq c c.policy refl
  after_insert-name o seq c (err invalid_size) = Yields-done (λ x. IsNamed (named c) x.0) _ refl
  after_insert-name o seq c (err object_too_large) = Yields-done (λ x. IsNamed (named c) x.0) _ refl

  abbrev KeepsNamed : Shared p → Shared p × Pc p → Type 0
  KeepsNamed m r = IsNamed (named m.core) r.0.core

  admitted-name :
      (o : Object) (seq : ℕ) (m : Shared p) (b : Bool)
      → Yields
          (if b
            then done (record m { locked = true }, put_insert o seq)
            else done (m, have_put none))
          (KeepsNamed m)
  admitted-name o seq m true = Yields-done (KeepsNamed m) _ refl
  admitted-name o seq m false = Yields-done (KeepsNamed m) _ refl

  -- No other call changes the name.
  pub advance-name :
      (t : Pc p) (m : Shared p) → in_switch p t ≡ 0 → Yields (advance p t m) (KeepsNamed m)
  unfolding advance put_round
  advance-name (get_lock key start end' seq) m h =
      Yields-bind (λ r. IsNamed (named m.core) r.0) (KeepsNamed m) _ _
        (get_locked-name key start m.core)
        λ r e. Yields-done (KeepsNamed m) (record m { core = r.0 }, _) e
  advance-name (get_publish start seq e) m h =
      Yields-bind (IsNamed (named m.core)) (KeepsNamed m) _ _
        (publish_if-name (sampled seq m.core.sample_rate) (get_event p start seq e) m.core)
        λ c e. Yields-done (KeepsNamed m) (record m { core = c }, _) e
  advance-name (put_lock o seq) m h = admitted-name o seq m (admits p o.key o.size m.core.policy)
  advance-name (put_insert o seq) m h =
      Yields-bind (λ r. IsNamed (named m.core) r.0) (KeepsNamed m) _ _
        (after_insert-name o seq m.core (Store.insert o.key o.val o.size o.now m.core.store))
        λ r e. Yields-done (KeepsNamed m) (record { core = r.0; locked = r.1 }, r.2) e
  advance-name (put_publish o seq) m h =
      Yields-bind (IsNamed (named m.core)) (KeepsNamed m) _ _ (publish-name _ m.core)
        λ c e. Yields-done (KeepsNamed m) (record m { core = c }, _) e
  advance-name (remove_lock key) m h =
      Yields-bind (λ r. IsNamed (named m.core) r.0) (KeepsNamed m) _ _ (remove-name key m.core)
        λ r e. Yields-done (KeepsNamed m) (record m { core = r.0 }, _) e
  advance-name clear_lock m h = Yields-done (KeepsNamed m) _ (clear-name m.core)
  advance-name (switch_lock entries s) m h = absurd (omega arith)
  advance-name (switch_note name) m h = absurd (omega arith)
  advance-name t m h = Yields-done (KeepsNamed m) _ refl

  -- What SetPolicy will tell the collector is the name of the policy that it installs.
  pub switch-name :
      (entries : Store → List Entry) (s : Option p.State) (m : Shared p)
      → Yields (advance p (switch_lock entries s) m) (λ r.
        (r.1 ≡ switch_note (policy_name p r.0.core.policy))
        × (r.0.core.metrics.policy ≡ m.core.metrics.policy))
  unfolding advance switch_locked
  switch-name entries s m r e = (
    Yields-bind (λ x. IsNamed x.1 x.0) Noted (switch_locked p es s m.core) _
        (switch_locked-name es s m.core)
        (λ x h.
          Yields-done Noted (record m { core = x.0 }, switch_note x.1) (ap switch_note (sym h)))
        r e,
    Yields-bind (λ x. Untouched p m.core x.0) Told (switch_locked p es s m.core) _
        (switch_locked-Untouched p es s m.core)
        (λ x u.
          Yields-done Told (record m { core = x.0 }, switch_note x.1) (ap (λ k. k.policy) u.1))
        r e,
  )
    where
      es : List Entry
      es = entries m.core.store

      Noted : Shared p × Pc p → Type 0
      Noted r = r.1 ≡ switch_note (policy_name p r.0.core.policy)

      Told : Shared p × Pc p → Type 0
      Told r = r.0.core.metrics.policy ≡ m.core.metrics.policy
