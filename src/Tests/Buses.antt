-- ===== src/Tests/Buses.antt =====
-- A bus with one subscriber.
use adaptive_caching.Base.{
  occurs, ℕ, ◌≡◌, ◌≢◌, refl, sym, ◌∙◌, ap, subst, true, false, [], ◌∷◌, Option, none, some, Key,
  key_dec, ℕ_discrete, Run, done, panic, out_of_fuel, ◌>>=◌, Returns, lookup, upsert, delete,
}
use adaptive_caching.Events.{
  Event, MemBus, new_bus, publish, offer, offer_all, try_send, wants, subscribe, remove_locked,
  close, close_at, close_all, cut, make_subscriber, mark,
}
use adaptive_caching.Events.Delivery.{is_open, after}
use adaptive_caching.Events.Invariant.{IsValid, new_bus-IsValid, publish-after}
use adaptive_caching.Events.Subscription.{subscribe-IsValid}
use adaptive_caching.Events.Closing.{close-IsValid}

program : Unit {0}
unfolding new_bus publish offer offer_all try_send wants subscribe remove_locked close close_at
    close_all cut make_subscriber mark lookup upsert delete key_dec ℕ_discrete
program = tt

state_or {ℓ} : {A : Type ℓ} {S : Type ℓ} → S → Run (S × A) → S
state_or s (done r) = r.0
state_or s panic = s
state_or s out_of_fuel = s

-- The subscriber takes hits and misses, and its channel has room for one event.
one : MemBus
one = state_or new_bus (subscribe "ui" 1 (1 ∷ 2 ∷ []) new_bus)

one_run : subscribe "ui" 1 (1 ∷ 2 ∷ []) new_bus ≡ done (one, 0)
unfolding one program state_or
one_run = refl

run_eq {ℓ} : {A : Type ℓ} {a b : A} → done a ≡ done b → a ≡ b
run_eq e = cc

one-IsValid : IsValid one
unfolding new_bus
one-IsValid =
    let (r, ran, (v, _, _, _, _)) =
      subscribe-IsValid "ui" 1 (1 ∷ 2 ∷ []) new_bus new_bus-IsValid refl in
    subst IsValid (ap (λ x. x.0) (run_eq (sym ran ∙ one_run))) v

abbrev hit : Event
hit = record { seq = 1; timestamp = 5; kind = 1 }

publish-after_example : Returns (publish hit one) (λ b.
    IsValid b
    × (b.order ≡ one.order)
    × (b.subs ≡ one.subs)
    × ((a : ℕ) → lookup ℕ_discrete a b.heap ≡ after hit one.order one.heap a))
publish-after_example = publish-after hit one one-IsValid

one_open : one.closed ≡ false
unfolding one program state_or
one_open = refl

subscribe-IsValid_example : Returns (subscribe "ui" 4 [] one) (λ r.
    IsValid r.0
    × (r.1 ≡ one.next)
    × (lookup key_dec "ui" r.0.subs ≡ some r.1)
    × (is_open r.1 r.0.heap ≡ true)
    × ((m : Key) → m ≢ "ui" → lookup key_dec m r.0.subs ≡ lookup key_dec m one.subs))
subscribe-IsValid_example = subscribe-IsValid "ui" 4 [] one one-IsValid one_open

close-IsValid_example : Returns (close one) (λ b.
    IsValid b
    × (b.closed ≡ true)
    × (b.order ≡ [])
    × ((a : ℕ) → occurs a one.order ≡ true → is_open a b.heap ≡ false)
    × (close b ≡ done b)
    × ((e : Event) → publish e b ≡ done b))
close-IsValid_example = close-IsValid one one-IsValid

-- The second event finds the channel full and is counted as dropped.
abbrev dropped_after : Run MemBus → Option ℕ
dropped_after (done b) = elim (lookup ℕ_discrete 0 b.heap) [ none ↦ none | some s ↦ some s.dropped ]
dropped_after panic = none
dropped_after out_of_fuel = none

full_drops : dropped_after (publish hit one >>= publish hit) ≡ some 1
unfolding one program state_or
full_drops = refl
