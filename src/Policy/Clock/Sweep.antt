-- ===== src/Policy/Clock/Sweep.antt =====
-- The loop of Victim in cache/policy/clock.go.
use adaptive_caching.Base.{
  ℕ, zero, suc, ◌+◌, ◌%◌, ◌<◌, ◌≡◌, ◌≢◌, ◌∙◌, sym, refl, inl, inr, true, false, Option, some, arith,
  Key, get_elem?, set, length, if◌then◌else◌, Bool-cases, get_elem?-set_self, get_elem?-set_ne,
  ℕ_discrete, length-set, done, Returns,
}
use adaptive_caching.Policy.Clock.{Slot, Clock, is_free, spare, advance, sweep}
use adaptive_caching.Policy.Clock.Ring.{
  key_at, key_at-set, key_at-get_elem?, get_elem?-lt, lt-get_elem?, distance, distance-next,
  distance_round, next-lt, KeepsSlot, KeepsSlot-refl, KeepsSlot-trans, KeepsSlot-spare,
}

-- The two clocks differ in the hand, and in reference bits that were cleared.
pub record Keeps (p p' : Clock) : Type 0 where
  pub index : p'.index ≡ p.index
  pub cap : p'.cap ≡ p.cap
  pub live : p'.live ≡ p.live
  pub keys : (i : ℕ) → key_at i p'.slots ≡ key_at i p.slots
  pub slots : (i : ℕ) → KeepsSlot (get_elem? p.slots i) (get_elem? p'.slots i)
  pub size : length p'.slots ≡ length p.slots
  pub hand_in : p'.hand < p.cap

-- A key that is in the ring was found.
pub record IsFound (p : Clock) (r : Clock × Option Key) : Type 0 where
  pub keeps : Keeps p r.0
  pub place : ℕ
  pub key : Key
  pub named : r.1 ≡ some key
  pub held : key_at place p.slots ≡ some key
  pub real : key ≢ ""

-- The hand of a ring with slots goes on.
abbrev pub moved : Clock → Clock
moved p = record p { hand = (p.hand + 1) % p.cap }

pub advance_run : (p : Clock) → p.hand < p.cap → advance p ≡ done (moved p)
advance_run p h = ground arith

pub Keeps-trans : (p q r : Clock) → Keeps p q → Keeps q r → Keeps p r
Keeps-trans p q r k l = record {
  index = l.index ∙ k.index;
  cap = l.cap ∙ k.cap;
  live = l.live ∙ k.live;
  keys = λ i. l.keys i ∙ k.keys i;
  slots = λ i.
      KeepsSlot-trans (get_elem? p.slots i) (get_elem? q.slots i) (get_elem? r.slots i) (k.slots i)
        (l.slots i);
  size = l.size ∙ k.size;
  hand_in = omega (arith, l.hand_in, k.cap);
}

pub Keeps-self : (p : Clock) → p.hand < p.cap → Keeps p p
Keeps-self p h = record {
  index = refl;
  cap = refl;
  live = refl;
  keys = λ i. refl;
  slots = λ i. KeepsSlot-refl (get_elem? p.slots i);
  size = refl;
  hand_in = h;
}

-- What is found from a clock that keeps the ring is found from the first one.
IsFound-from : (p q : Clock) (r : Clock × Option Key) → Keeps p q → IsFound q r → IsFound p r
IsFound-from p q r k f = record {
  keeps = Keeps-trans p q r.0 k f.keeps;
  place = f.place;
  key = f.key;
  named = f.named;
  held = sym (k.keys f.place) ∙ f.held;
  real = f.real;
}

pub moved-Keeps : (p : Clock) → p.hand < p.cap → Keeps p (moved p)
moved-Keeps p h = record {
  index = refl;
  cap = refl;
  live = refl;
  keys = λ i. refl;
  slots = λ i. KeepsSlot-refl (get_elem? p.slots i);
  size = refl;
  hand_in = next-lt p.cap p.hand h;
}

-- The slot under the hand gets its second chance.
abbrev pub spared : Slot → Clock → Clock
spared t p = moved (record p { slots = set p.slots p.hand (spare t) })

pub spared-Keeps :
    (p : Clock) (t : Slot)
    → p.hand < p.cap
    → get_elem? p.slots p.hand ≡ some t
    → Keeps p (spared t p)
spared-Keeps p t h at = record {
  index = refl;
  cap = refl;
  live = refl;
  keys = λ i. key_at-set p.hand t (spare t) p.slots i at refl;
  slots = λ i. KeepsSlot-spare p.hand t p.slots i at;
  size = length-set p.slots p.hand (spare t);
  hand_in = next-lt p.cap p.hand h;
}

-- The rounds that are needed to stop at a slot or before it.
abbrev pub rounds : Clock → ℕ → Slot → ℕ
rounds p j s = distance p.cap p.hand j + (if s.ref then p.cap else 0)

-- One round of the sweep, by the slot under the hand.
module _ (f : ℕ) (p : Clock) (t : Slot) (h : p.hand < p.cap)
    (under : get_elem? p.slots p.hand ≡ some t) where
  sweep_free : is_free t ≡ true → sweep (suc f) p ≡ sweep f (moved p)
  unfolding sweep
  sweep_free free = ground arith

  sweep-spared : is_free t ≡ false → t.ref ≡ true → sweep (suc f) p ≡ sweep f (spared t p)
  unfolding sweep
  sweep-spared busy fresh = ground arith

  sweep_stops : is_free t ≡ false → t.ref ≡ false → sweep (suc f) p ≡ done (p, some t.key)
  unfolding sweep
  sweep_stops busy stale = ground arith

-- The sweep stops, if it has more rounds than it needs for some occupied slot.
pub sweep-IsFound :
    (f : ℕ) (p : Clock) (j : ℕ) (s : Slot)
    → length p.slots ≡ p.cap
    → p.hand < p.cap
    → get_elem? p.slots j ≡ some s
    → is_free s ≡ false
    → rounds p j s < f
    → Returns (sweep f p) (IsFound p)
sweep-IsFound zero p j s sized h at busy enough = absurd (omega (arith, enough))
sweep-IsFound (suc f) p j s sized h at busy enough =
    let (t, under) = get_elem?-lt p.hand p.slots (omega (arith, sized, h)) in
    let in_ring : j < p.cap = omega (arith, sized, lt-get_elem? j s p.slots at) in
    elim (Bool-cases (is_free t)) [
      | inl free ↦
          let other : p.hand ≢ j = λ e. ground arith in
          let (r, ran, found) =
            sweep-IsFound f (moved p) j s sized (next-lt p.cap p.hand h) at busy
              (omega (arith, enough, distance-next p.cap p.hand j h in_ring other)) in
          (
            r,
            sweep_free f p t h under free ∙ ran,
            IsFound-from p (moved p) r (moved-Keeps p h) found,
          )
      | inr held ↦ elim (Bool-cases t.ref) [
        | inr stale ↦ (
          (p, some t.key),
          sweep_stops f p t h under held stale,
          record {
            keeps = Keeps-self p h;
            place = p.hand;
            key = t.key;
            named = refl;
            held = key_at-get_elem? p.hand t p.slots under;
            real = λ e. ground arith;
          },
        )
        | inl fresh ↦ elim (ℕ_discrete p.hand j) [
          | yes same ↦
              let (r, ran, found) =
                sweep-IsFound f (spared t p) p.hand (spare t)
                  (length-set p.slots p.hand (spare t) ∙ sized) (next-lt p.cap p.hand h)
                  (get_elem?-set_self p.slots p.hand (spare t) (omega (arith, sized, h))) held
                  (ground (arith, distance_round p.cap p.hand h, same)) in
              (
                r,
                sweep-spared f p t h under held fresh ∙ ran,
                IsFound-from p (spared t p) r (spared-Keeps p t h under) found,
              )
          | no other ↦
              let (r, ran, found) =
                sweep-IsFound f (spared t p) j s (length-set p.slots p.hand (spare t) ∙ sized)
                  (next-lt p.cap p.hand h) (get_elem?-set_ne p.slots p.hand j (spare t) other ∙ at)
                  busy (omega (arith, enough, distance-next p.cap p.hand j h in_ring other)) in
              (
                r,
                sweep-spared f p t h under held fresh ∙ ran,
                IsFound-from p (spared t p) r (spared-Keeps p t h under) found,
              )
        ]
      ]
    ]
