-- ===== src/Policy/Clock/Batch.antt =====
-- Candidates of cache/policy/clock.go.
use adaptive_caching.Base.{
  ℕ, zero, suc, ◌*◌, ◌<◌, ◌≡◌, ◌≢◌, ◌∙◌, ◌||◌, sym, refl, ap, inl, inr, true, false, List, [], ◌∷◌,
  some, arith, Key, key_dec, Int64, lt64, get_elem?, length, Bool-cases, lookup, done, Returns,
  is_some, is_zero, lt64,
}
use adaptive_caching.Policy.{AllKeys, IsMakeable}
use adaptive_caching.Policy.Batch.{AllKeys-mono, make_keys_run}
use adaptive_caching.Policy.Clock.{Slot, Clock, is_free, collect, candidates}
use adaptive_caching.Policy.Clock.Ring.{
  key_at, key_at-get_elem?, get_elem?-lt, find_occupied, lt-get_elem?, occupied,
}
use adaptive_caching.Policy.Clock.Sweep.{
  Keeps, Keeps-trans, Keeps-self, moved, moved-Keeps, spared, spared-Keeps,
}
use adaptive_caching.Policy.Clock.Invariant.{IsValid, tracks, same_keys-IsValid}

abbrev IsHeld : Clock → Key → Type 0
IsHeld p k = (i : ℕ) × (key_at i p.slots ≡ some k) × (k ≢ "")

-- Keys of the ring were collected.
record IsCollected (p : Clock) (r : Clock × List Key) : Type 0 where
  keeps : Keeps p r.0
  held : AllKeys (IsHeld p) r.1

held-from :
    (p q : Clock) (ks : List Key) → Keeps p q → AllKeys (IsHeld q) ks → AllKeys (IsHeld p) ks
held-from p q ks k =
    AllKeys-mono (IsHeld q) (IsHeld p) ks λ key h. (h.0, sym (k.keys h.0) ∙ h.1, h.2)

IsCollected-from :
    (p q : Clock) (r : Clock × List Key) → Keeps p q → IsCollected q r → IsCollected p r
IsCollected-from p q r k c = record {
  keeps = Keeps-trans p q r.0 k c.keeps;
  held = held-from p q r.1 k c.held;
}

-- One round of the loop, by the slot under the hand.
module _ (f n : ℕ) (p : Clock) (t : Slot) (h : p.hand < p.cap)
    (under : get_elem? p.slots p.hand ≡ some t) where
  collect_free : is_free t ≡ true → collect (suc f) (suc n) p ≡ collect f (suc n) (moved p)
  unfolding collect
  collect_free free = ground arith

  collect-spared :
      is_free t ≡ false → t.ref ≡ true → collect (suc f) (suc n) p ≡ collect f (suc n) (spared t p)
  unfolding collect
  collect-spared busy fresh = ground arith

  collect_takes :
      is_free t ≡ false
      → t.ref ≡ false
      → (r : Clock × List Key) → collect f n (moved p) ≡ done r
      → collect (suc f) (suc n) p ≡ done (r.0, t.key ∷ r.1)
  unfolding collect
  collect_takes busy stale r ran = ground arith

collect-IsCollected :
    (f n : ℕ) (p : Clock)
    → length p.slots ≡ p.cap
    → p.hand < p.cap
    → Returns (collect f n p) (IsCollected p)
unfolding collect
collect-IsCollected zero n p sized h = ((p, []), refl, record { keeps = Keeps-self p h; held = tt })
collect-IsCollected (suc f) zero p sized h =
    ((p, []), refl, record { keeps = Keeps-self p h; held = tt })
collect-IsCollected (suc f) (suc n) p sized h =
    let (t, under) = get_elem?-lt p.hand p.slots (omega (arith, sized, h)) in
    let k = moved-Keeps p h in
    elim (Bool-cases (is_free t)) [
      | inl free ↦
          let (r, ran, c) = collect-IsCollected f (suc n) (moved p) sized k.hand_in in
          (r, collect_free f n p t h under free ∙ ran, IsCollected-from p (moved p) r k c)
      | inr busy ↦ elim (Bool-cases t.ref) [
        | inl fresh ↦
            let l = spared-Keeps p t h under in
            let (r, ran, c) =
              collect-IsCollected f (suc n) (spared t p) (l.size ∙ sized) l.hand_in in
            (
              r,
              collect-spared f n p t h under busy fresh ∙ ran,
              IsCollected-from p (spared t p) r l c,
            )
        | inr stale ↦
            let (r, ran, c) = collect-IsCollected f n (moved p) sized k.hand_in in
            let c' = IsCollected-from p (moved p) r k c in
            (
              (r.0, t.key ∷ r.1),
              collect_takes f n p t h under busy stale r ran,
              record {
                keeps = c'.keeps;
                held =
                    ((p.hand, key_at-get_elem? p.hand t p.slots under, λ e. ground arith), c'.held);
              },
            )
      ]
    ]

-- Candidates of a valid clock, whatever is asked for and whether a key is tracked or not.
pub candidates-tracked :
    (n : Int64) (p : Clock)
    → IsValid p
    → IsMakeable n
    → Returns (candidates n p) (λ r.
      IsValid r.0 × ((j : Key) → tracks r.0 j ≡ tracks p j) × AllKeys (λ k. tracks p k ≡ true) r.1)
unfolding candidates
candidates-tracked n p v makeable = elim (Bool-cases (lt64 n 1 || is_zero p.live)) [
  | inl idle ↦ ((p, []), rw idle refl, (v, λ j. refl, tt))
  | inr busy ↦
      let some_key : 0 < occupied p.slots = ground (arith, v.counted, busy) in
      let (j, s, at, held) = find_occupied p.slots some_key in
      let in_ring : j < p.cap = omega (arith, v.sized, lt-get_elem? j s p.slots at) in
      let (r, ran, c) =
        collect-IsCollected (2 * length p.slots) n p v.sized (v.hand_in (omega (arith, in_ring))) in
      (
        r,
        rw (busy, make_keys_run n makeable (ground (arith, busy))) ran,
        (
          same_keys-IsValid p r.0 v c.keeps.index c.keeps.cap c.keeps.live c.keeps.keys c.keeps.size
              (λ _. c.keeps.hand_in),
          λ j. ap (λ index. is_some (lookup key_dec j index)) c.keeps.index,
          AllKeys-mono (IsHeld p) (λ k. tracks p k ≡ true) r.1
              (λ k h. ap is_some (v.back k h.0 h.1 h.2)) c.held,
        ),
      )
]
