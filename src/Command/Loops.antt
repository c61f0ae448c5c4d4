-- ===== src/Command/Loops.antt =====
-- The loops of cmd/adaptive-cache/main.go: generate and drainEvents.
use adaptive_caching.Base.{
  ℕ, zero, suc, ◌≤◌, ◌≡◌, refl, sym, ◌∙◌, ap, inl, inr, List, [], ◌∷◌, ◌++◌, Option, none, some,
  arith, length, Bool-cases, Option-cases, done, Returns, ◌>>=◌,
}
use mathlib.Core.List.{append_assoc, append-nil}
use adaptive_caching.Types.{Value}
use adaptive_caching.Policy.{EvictionPolicy, View, IsLawful}
use adaptive_caching.Events.{Event, Channel, receive}
use adaptive_caching.Store.{Error}
use adaptive_caching.Cache.{Cache, get, put}
use adaptive_caching.Cache.Invariant.{IsValid}
use adaptive_caching.Cache.Serving.{get-IsValid}
use adaptive_caching.Cache.History.{put-IsValid}
use adaptive_caching.Command.{Draw, draw_key, demo_payload, generate_round, generate, drain_events}

receive_empty :
    (ch : Channel)
    → ch.queue ≡ []
    → ((receive ch).received ≡ ch.received) × ((receive ch).queue ≡ [])
unfolding receive
receive_empty ch e = elim (Bool-cases ch.closed) [
  | inl shut ↦ (rw (e, receive, shut) refl, rw (e, receive, shut) e)
  | inr open' ↦ (rw (e, receive, open') refl, rw (e, receive, open') e)
]

receive_full :
    (ch : Channel) (e : Event) (q : List Event)
    → ch.queue ≡ e ∷ q
    → receive ch ≡ record ch { queue = q; received = ch.received ++ e ∷ [] }
unfolding receive
receive_full ch e q h = rw (h, receive) refl

drain_events_lem :
    (n : ℕ) (q : List Event) (ch : Channel)
    → ch.queue ≡ q
    → length q ≤ n
    → ((drain_events n ch).received ≡ ch.received ++ q) × ((drain_events n ch).queue ≡ [])
unfolding drain_events
drain_events_lem zero [] ch e h = (sym (append-nil ch.received), e)
drain_events_lem zero (x ∷ q) ch e h = absurd (omega arith)
drain_events_lem (suc n) [] ch e h =
    let (same, empty) = receive_empty ch e in
    let (a, b) = drain_events_lem n [] (receive ch) empty (omega arith) in
    (a ∙ ap (λ l. l ++ []) same, b)
drain_events_lem (suc n) (x ∷ q) ch e h =
    let next : Channel = record ch { queue = q; received = ch.received ++ x ∷ [] } in
    let (a, b) = drain_events_lem n q next refl (omega (arith, h)) in
    (
      ap (λ c. (drain_events n c).received) (receive_full ch x q e)
          ∙ a
          ∙ append_assoc ch.received (x ∷ []) q,
      ap (λ c. (drain_events n c).queue) (receive_full ch x q e) ∙ b,
    )

-- To receive from a channel as often as it has buffered events, or more: they are all received, in
-- their order, after those that were received before, and the buffer is empty.
pub drain_events-received :
    (n : ℕ) (ch : Channel)
    → length ch.queue ≤ n
    → ((drain_events n ch).received ≡ ch.received ++ ch.queue) × ((drain_events n ch).queue ≡ [])
drain_events-received n ch h = drain_events_lem n ch.queue ch refl h

module _ {p : EvictionPolicy} {view : View p} (law : IsLawful p view) where
  round_hit :
      (d : Draw) (c c' : Cache p) (val : Value)
      → get p (draw_key d.number) d.start d.end c ≡ done (c', some val)
      → generate_round p d c ≡ done c'
  unfolding generate_round
  round_hit d c c' val e = rw e refl

  round_miss :
      (d : Draw) (c c' : Cache p) (r : Cache p × Option Error)
      → get p (draw_key d.number) d.start d.end c ≡ done (c', none)
      → put p (draw_key d.number) demo_payload 1024 d.now c' ≡ done r
      → generate_round p d c ≡ done r.0
  unfolding generate_round
  round_miss d c c' r e e' = rw (e, e') refl

  generate_round-IsValid :
      (d : Draw) (c : Cache p)
      → IsValid law c
      → view.Admissible (draw_key d.number)
      → Returns (generate_round p d c) (IsValid law)
  generate_round-IsValid d c v admissible =
      let (r, ran, rest) = get-IsValid law (draw_key d.number) d.start d.end c v in
      elim (Option-cases r.1) [
        | inr (val, hit) ↦ (r.0, round_hit d c r.0 val (ran ∙ ap (λ v. done (r.0, v)) hit), rest.0)
        | inl miss ↦
            let (r', ran', v') =
              put-IsValid law (draw_key d.number) demo_payload 1024 d.now r.0 r.0.policy refl rest.0
                (omega arith) admissible in
            (r'.0, round_miss d c r.0 r' (ran ∙ ap (λ v. done (r.0, v)) miss) ran', v')
      ]

  -- The loop of the demo, for every draw of numbers and every reading of the clock: on a valid cache,
  -- with a lawful policy that can hold the keys of the demo or without a policy, no round panics or
  -- loops, and the cache is valid after it.
  pub generate-IsValid :
      (ds : List Draw) (c : Cache p)
      → IsValid law c
      → ((n : ℕ) → view.Admissible (draw_key n))
      → Returns (generate p ds c) (IsValid law)
  unfolding generate
  generate-IsValid [] c v admissible = (c, refl, v)
  generate-IsValid (d ∷ ds) c v admissible =
      let (c', ran, v') = generate_round-IsValid d c v (admissible d.number) in
      let (c'', ran', v'') = generate-IsValid ds c' v' admissible in
      (c'', ap (λ x. x >>= generate p ds) ran ∙ ran', v'')
