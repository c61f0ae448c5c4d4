-- ===== src/Cache/Wiring.antt =====
-- That the methods of cache/core.go keep the bus that the cache was made with.
use adaptive_caching.Base.{
  ℕ, zero, suc, ◌≡◌, refl, sym, inl, inr, ◌⊎◌, Bool, true, false, List, Option, none, some, Key,
  Int64, ◌∙◌, Run, done, Yields, Yields-done, Yields-bind, Yields-after, ◌>>=◌, Option-cases, arith,
  is_some, if◌then◌else◌,
}
use adaptive_caching.Types.{Entry, Value, Time}
use adaptive_caching.Store
use adaptive_caching.Store.{
  Store, Result, Error, ok, err, object_count, touch, object_too_large, capacity_exceeded,
  invalid_size,
}
use adaptive_caching.Events
use adaptive_caching.Events.{Event, MemBus, type_eviction}
use adaptive_caching.Cache.Occupancy.{stats}
use adaptive_caching.Metrics.{set_policy as note_policy, record_fetch, record_eviction}
use adaptive_caching.Policy.{EvictionPolicy, View, IsLawful}
use adaptive_caching.Cache.{
  Core, Cache, get, put, put_loop, remove, clear, set_policy, publish, publish_to, inserted,
  evict_one, evict_key, with_policy, access, sampled, policy_name, admits, next_seq,
}
use adaptive_caching.Cache.History.{
  Step, Reach, gets, puts, removes, clears, observes, switches, here, next,
}

Result-cases {ℓ} :
    {A : Type ℓ} (r : Result A) → ((a : A) × (r ≡ ok a)) ⊎ ((e : Error) × (r ≡ err e))
Result-cases (ok a) = inl (a, refl)
Result-cases (err e) = inr (e, refl)

Yields-eq {ℓ κ} :
    {A : Type ℓ} (P : A → Type κ) {r : Run A} (r' : Run A) → r ≡ r' → Yields r' P → Yields r P
Yields-eq P r' e y a ran = y a (sym e ∙ ran)

publish_to-bus :
    (e : Event) (o : Option MemBus)
    → is_some o ≡ true
    → Yields (publish_to e o) (λ o'. is_some o' ≡ true)
publish_to-bus e none h = absurd (ground arith)
publish_to-bus e (some b) h =
    Yields-after (λ o'. is_some o' ≡ true) (Events.publish e b) _
      λ b' _. Yields-done (λ o'. is_some o' ≡ true) (some b') refl

abbrev pub HasBus : {S : Type 0} → Core S → Type 0
HasBus c = is_some c.bus ≡ true

abbrev Kept {ℓ} : {S : Type 0} {A : Type ℓ} → Core S × A → Type 0
Kept r = HasBus r.0

module _ (p : EvictionPolicy) where
  pub publish-bus : (e : Event) (c : Cache p) → HasBus c → Yields (publish p e c) HasBus
  unfolding publish
  publish-bus e c h =
      Yields-bind (λ o. is_some o ≡ true) HasBus (publish_to e c.bus) _ (publish_to-bus e c.bus h)
        λ b k. Yields-done HasBus (record c { bus = b }) k

  publish_or-bus :
      (b : Bool) (e : Event) (c : Cache p)
      → HasBus c
      → Yields (if b then publish p e c else done c) HasBus
  publish_or-bus true e c h = publish-bus e c h
  publish_or-bus false e c h = Yields-done HasBus c h

  finish :
      (b : Bool) (e : Event) (c : Cache p) (v : Option Value)
      → HasBus c
      → Yields ((if b then publish p e c else done c) >>= λ c'. done (c', v)) Kept
  finish b e c v h =
      Yields-bind HasBus Kept (if b then publish p e c else done c) (λ c'. done (c', v))
        (publish_or-bus b e c h) λ c' k. Yields-done Kept (c', v) k

  get-bus :
      (key : Key) (start end' : Time) (c : Cache p)
      → HasBus c
      → Yields (get p key start end' c) Kept
  unfolding get
  get-bus key start end' c h =
      Yields-after Kept (access p key (touch key start c.store).1 c.policy) _
        λ s _. finish (sampled (next_seq p c) c.sample_rate) _ _ _ h

  evict_key-bus :
      (seq : ℕ) (now : Time) (k : Key) (s : p.State) (c : Cache p)
      → HasBus c
      → Yields (evict_key p seq now k s c) Kept
  unfolding evict_key
  evict_key-bus seq now k s c h = elim (Option-cases (Store.remove k c.store).1) [
    | inl miss ↦
        Yields-eq Kept (p.on_remove k none s >>= λ s'. done (record c { policy = some s' }, false))
          (rw (miss, evict_key) refl)
          (Yields-after Kept (p.on_remove k none s)
            (λ s'. done (record c { policy = some s' }, false))
            λ s' _. Yields-done Kept (record c { policy = some s' }, false) h)
    | inr (e, hit) ↦
        Yields-eq Kept
          (p.on_remove k (some e) s >>= λ s'.
            publish p event (taken s' e) >>= λ c'. done (c', true))
          (rw (hit, evict_key) refl)
          (Yields-after Kept (p.on_remove k (some e) s)
            (λ s'. publish p event (taken s' e) >>= λ c'. done (c', true))
            λ s' _.
              Yields-bind HasBus Kept (publish p event (taken s' e)) (λ c'. done (c', true))
                (publish-bus event (taken s' e) h) λ c' k'. Yields-done Kept (c', true) k')
  ]
    where
      event : Event
      event = record { seq = seq; timestamp = now; kind = type_eviction }

      taken : p.State → Entry → Cache p
      taken s' e = record c {
        store = (Store.remove k c.store).0;
        policy = some s';
        metrics = record_eviction e.size c.metrics;
      }

  evict_one-bus :
      (seq : ℕ) (now : Time) (s : p.State) (c : Cache p)
      → HasBus c
      → Yields (evict_one p seq now s c) Kept
  unfolding evict_one
  evict_one-bus seq now s c h = Yields-after Kept (p.victim s) _ λ r _. chosen r.0 r.1
    where
      chosen :
          (s' : p.State) (victim : Option Key)
          → Yields
              (elim victim [
                | none ↦ done (record c { policy = some s' }, false)
                | some k ↦ evict_key p seq now k s' c
              ])
              Kept
      chosen s' none = Yields-done Kept (record c { policy = some s' }, false) h
      chosen s' (some k) = evict_key-bus seq now k s' c h

  inserted-bus :
      (key : Key) (size : Int64) (r : Store × Entry) (c : Cache p)
      → HasBus c
      → Yields (inserted p key size r c) HasBus
  unfolding inserted
  inserted-bus key size r c h =
      Yields-after HasBus (with_policy c.policy (p.on_insert key r.1)) _ λ s _.
        Yields-done HasBus
          (record c { store = r.0; policy = s; metrics = record_fetch size c.metrics }) h

  abbrev again :
      (Cache p → Run (Cache p × Option Error)) → Cache p × Bool → Run (Cache p × Option Error)
  again loop r = elim r.1 [ true ↦ loop r.0 | false ↦ done (r.0, some capacity_exceeded) ]

  -- What the loop of Put does where the store has no room.
  abbrev room :
      ℕ
      → Time
      → Cache p
      → (Cache p → Run (Cache p × Option Error))
      → Option p.State
      → Run (Cache p × Option Error)
  room seq now c loop none = done (c, some capacity_exceeded)
  room seq now c loop (some s) = evict_one p seq now s c >>= again loop

  module _ (seq : ℕ) (now : Time) (c : Cache p) (h : HasBus c)
      (loop : Cache p → Run (Cache p × Option Error))
      (keeps : (c' : Cache p) → HasBus c' → Yields (loop c') Kept) where
    again-bus : (c' : Cache p) (b : Bool) → HasBus c' → Yields (again loop (c', b)) Kept
    again-bus c' true k = keeps c' k
    again-bus c' false k = Yields-done Kept (c', some capacity_exceeded) k

    room-bus : (o : Option p.State) → Yields (room seq now c loop o) Kept
    room-bus none = Yields-done Kept (c, some capacity_exceeded) h
    room-bus (some s) =
        Yields-bind Kept Kept (evict_one p seq now s c) (again loop) (evict_one-bus seq now s c h)
          λ r k. again-bus r.0 r.1 k

  put_loop-bus :
      (fuel seq : ℕ) (key : Key) (val : Value) (size : Int64) (now : Time) (c : Cache p)
      → HasBus c
      → Yields (put_loop p fuel seq key val size now c) Kept
  unfolding put_loop
  put_loop-bus zero seq key val size now c h = λ r e. absurd (ground arith)
  put_loop-bus (suc fuel) seq key val size now c h =
      elim (Result-cases (Store.insert key val size now c.store)) [
        | inl (r, e) ↦
            Yields-eq Kept (inserted p key size r c >>= λ c'. done (c', none))
              (rw (e, put_loop) refl)
              (Yields-bind HasBus Kept (inserted p key size r c) (λ c'. done (c', none))
                (inserted-bus key size r c h) λ c' k. Yields-done Kept (c', none) k)
        | inr (capacity_exceeded, e) ↦
            let loop = put_loop p fuel seq key val size now in
            Yields-eq Kept (room seq now c loop c.policy) (rw (e, put_loop) refl)
              (room-bus seq now c h loop (put_loop-bus fuel seq key val size now) c.policy)
        | inr (object_too_large, e) ↦
            Yields-eq Kept (done (c, some object_too_large)) (rw (e, put_loop) refl)
              (Yields-done Kept (c, some object_too_large) h)
        | inr (invalid_size, e) ↦
            Yields-eq Kept (done (c, some invalid_size)) (rw (e, put_loop) refl)
              (Yields-done Kept (c, some invalid_size) h)
      ]

  put-bus :
      (key : Key) (val : Value) (size : Int64) (now : Time) (c : Cache p)
      → HasBus c
      → Yields (put p key val size now c) Kept
  unfolding put
  put-bus key val size now c h = admitted (admits p key size c.policy)
    where
      c' : Cache p
      c' = record c { seq = next_seq p c }

      admitted :
          (b : Bool)
          → Yields
              (if b
                then put_loop p (suc (object_count c.store)) (next_seq p c) key val size now c'
                else done (c', none))
              Kept
      admitted true = put_loop-bus (suc (object_count c.store)) (next_seq p c) key val size now c' h
      admitted false = Yields-done Kept (c', none) h

  remove-bus : (key : Key) (c : Cache p) → HasBus c → Yields (remove p key c) Kept
  unfolding remove
  remove-bus key c h = elim (Option-cases (Store.remove key c.store).1) [
    | inl miss ↦
        Yields-eq Kept (done (c, false)) (rw (miss, remove) refl) (Yields-done Kept (c, false) h)
    | inr (e, hit) ↦
        Yields-eq Kept (with_policy c.policy (p.on_remove key (some e)) >>= left_with e)
          (rw (hit, remove) refl)
          (Yields-after Kept (with_policy c.policy (p.on_remove key (some e))) (left_with e) λ s _.
            Yields-done Kept (record c { store = (Store.remove key c.store).0; policy = s }, true)
              h)
  ]
    where
      left_with : Entry → Option p.State → Run (Cache p × Bool)
      left_with e s = done (record c { store = (Store.remove key c.store).0; policy = s }, true)

  set_policy-bus :
      (es : List Entry) (o : Option p.State) (c : Cache p)
      → HasBus c
      → Yields (set_policy p es o c) HasBus
  unfolding set_policy
  set_policy-bus es o c h =
      Yields-after HasBus (with_policy o (λ q. p.rebuild es (p.reset q))) _ λ o' _.
        Yields-done HasBus
          (record c { policy = o'; metrics = note_policy (policy_name p o') c.metrics }) h

module _ {p : EvictionPolicy} {view : View p} (law : IsLawful p view) where
  Step-bus : {c c' : Cache p} → HasBus c → Step law c c' → HasBus c'
  unfolding clear stats
  Step-bus {c} {c'} h (gets key start end' val e) = get-bus p key start end' c h (c', val) e
  Step-bus {c} {c'} h (puts key val size now err' bits ok' e) =
      put-bus p key val size now c h (c', err') e
  Step-bus {c} {c'} h (removes key found e) = remove-bus p key c h (c', found) e
  Step-bus {c} h clears = h
  Step-bus {c} h (observes sizes) = h
  Step-bus {c} {c'} h (switches es o it e) = set_policy-bus p es o c h c' e

  -- A cache with a bus keeps one, whatever is called.
  pub Reach-bus : {c c' : Cache p} → HasBus c → Reach law c c' → HasBus c'
  Reach-bus h here = h
  Reach-bus h (next r s) = Step-bus (Reach-bus h r) s
