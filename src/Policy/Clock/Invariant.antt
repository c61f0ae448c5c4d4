-- ===== src/Policy/Clock/Invariant.antt =====
-- The invariant of the CLOCK policy, cache/policy/clock.go, with OnAccess and OnRemove.
use adaptive_caching.Base.{
  ℕ, ◌<◌, ◌≡◌, ◌≢◌, ◌∙◌, sym, refl, ap, inl, inr, Bool, true, false, none, some, arith, ite, Key,
  key_dec, get_elem?, set, length, Option-cases, ℕ_discrete, lookup, upsert, delete, lookup-upsert,
  lookup-delete, length-set, done, Returns, pos, increment, decrement, is_some,
}
use adaptive_caching.Policy.Clock.{
  Slot, Clock, empty_slot, is_free, on_access, on_remove, place, reset, update_slot,
}
use adaptive_caching.Policy.Clock.Ring.{
  key_at, key_at-set, key_at-get_elem?, get_elem?-key_at, lt-get_elem?, occupied, occupied-set,
  occupied_keys, key_at-set_self, key_at-set_ne, key_at-lt,
}

pub record IsValid (p : Clock) : Type 0 where
  pub sized : length p.slots ≡ p.cap
  pub hand_in : 0 < p.cap → p.hand < p.cap
  pub forth :
      (k : Key) (i : ℕ) → lookup key_dec k p.index ≡ some i → (key_at i p.slots ≡ some k) × (k ≢ "")
  pub back :
      (k : Key) (i : ℕ) → key_at i p.slots ≡ some k → k ≢ "" → lookup key_dec k p.index ≡ some i
  pub counted : p.live ≡ pos (occupied p.slots)

abbrev pub tracks : Clock → Key → Bool
tracks p k = is_some (lookup key_dec k p.index)

pub reset-IsValid : (p : Clock) → IsValid (reset p)
unfolding reset lookup
reset-IsValid p = record {
  sized = refl;
  hand_in = λ h. absurd (omega (arith, h));
  forth = λ k i h. absurd (ground arith);
  back = λ k i h. absurd (ground arith);
  counted = refl;
}

-- A clock with the index, the size and the keys of a valid one is valid.
pub same_keys-IsValid :
    (p p' : Clock)
    → IsValid p
    → p'.index ≡ p.index
    → p'.cap ≡ p.cap
    → p'.live ≡ p.live
    → ((i : ℕ) → key_at i p'.slots ≡ key_at i p.slots)
    → length p'.slots ≡ length p.slots
    → (0 < p.cap → p'.hand < p.cap)
    → IsValid p'
same_keys-IsValid p p' v index cap live keys size hand = record {
  sized = size ∙ v.sized ∙ sym cap;
  hand_in = λ h. omega (arith, cap, hand (omega (arith, h, cap)));
  forth = λ k i h.
      let (at, real) = v.forth k i (ap (lookup key_dec k) (sym index) ∙ h) in (keys i ∙ at, real);
  back = λ k i h real. ap (lookup key_dec k) index ∙ v.back k i (sym (keys i) ∙ h) real;
  counted = live ∙ v.counted ∙ ap pos (sym (occupied_keys p'.slots p.slots keys));
}

-- A slot that a key has in the index, after a write that keeps its key.
module _ (p : Clock) (v : IsValid p) (key : Key) (i : ℕ)
    (hit : lookup key_dec key p.index ≡ some i) where
  pub touched :
      (t : Slot → Slot)
      → ((s : Slot) → (t s).key ≡ s.key)
      → Returns (update_slot i t p.slots) (λ slots. IsValid (record p { slots = slots }))
  touched t keeps =
      let (s, at, named) = get_elem?-key_at i key p.slots (v.forth key i hit).0 in
      (
        set p.slots i (t s),
        ground arith,
        same_keys-IsValid p (record p { slots = set p.slots i (t s) }) v refl refl refl
            (λ j. key_at-set i s (t s) p.slots j at (sym (keeps s))) (length-set p.slots i (t s))
            v.hand_in,
      )

pub on_access-IsValid :
    (key : Key) (p : Clock)
    → IsValid p
    → Returns (on_access key p) (λ p'. IsValid p' × ((j : Key) → tracks p' j ≡ tracks p j))
unfolding on_access
on_access-IsValid key p v = elim (Option-cases (lookup key_dec key p.index)) [
  | inl miss ↦ (p, ground arith, (v, λ j. refl))
  | inr (i, hit) ↦
      let (slots, ran, v') = touched p v key i hit (λ s. record s { ref = true }) (λ s. refl) in
      (record p { slots = slots }, ground arith, (v', λ j. refl))
]

abbrev pub placed : ℕ → Slot → Clock → Clock
placed i t p = record p {
  slots = set p.slots i t;
  index = upsert key_dec t.key i p.index;
  live = increment p.live;
}

-- A new key takes a free slot.
module _ (i : ℕ) (s t : Slot) (p : Clock) (v : IsValid p) (at : get_elem? p.slots i ≡ some s)
    (free : is_free s ≡ true) (busy : is_free t ≡ false) where
  pub place_run : place i t p ≡ done (placed i t p)
  place_run = ground arith

  unused : (k : Key) (j : ℕ) → lookup key_dec k p.index ≡ some j → i ≢ j
  unused k j h e = ground (arith, v.forth k j h, key_at-get_elem? i s p.slots at)

  placed_counted : increment p.live ≡ pos (occupied (set p.slots i t))
  placed_counted = ground (arith, v.counted, occupied-set p.slots i s t at)

  pub placed-IsValid : lookup key_dec t.key p.index ≡ none → IsValid (placed i t p)
  placed-IsValid new = record {
    sized = length-set p.slots i t ∙ v.sized;
    hand_in = v.hand_in;
    forth = λ k j h. elim (key_dec t.key k) [
      | yes e ↦ ground (
        arith,
        lookup-upsert key_dec t.key k i p.index,
        key_at-set_self i t p.slots (lt-get_elem? i s p.slots at),
      )
      | no e ↦
          let old : lookup key_dec k p.index ≡ some j =
            ground (arith, lookup-upsert key_dec t.key k i p.index) in
          (key_at-set_ne i j t p.slots (unused k j old) ∙ (v.forth k j old).0, (v.forth k j old).1)
    ];
    back = λ k j h real. elim (ℕ_discrete i j) [
      | yes e ↦ ground (
        arith,
        lookup-upsert key_dec t.key k i p.index,
        key_at-set_self i t p.slots (lt-get_elem? i s p.slots at),
      )
      | no e ↦
          let old = v.back k j (sym (key_at-set_ne i j t p.slots e) ∙ h) real in
          ground (arith, lookup-upsert key_dec t.key k i p.index)
    ];
    counted = placed_counted;
  }

  pub tracks-placed : (j : Key) → tracks (placed i t p) j ≡ ite (key_dec t.key j) true (tracks p j)
  tracks-placed j = ground (arith, lookup-upsert key_dec t.key j i p.index)

abbrev cleared : Key → ℕ → Clock → Clock
cleared key i p = record p {
  slots = set p.slots i empty_slot;
  index = delete key_dec key p.index;
  live = decrement p.live;
}

module _ (key : Key) (i : ℕ) (p : Clock) (v : IsValid p)
    (hit : lookup key_dec key p.index ≡ some i) where
  cleared_run : on_remove key p ≡ done (cleared key i p)
  unfolding on_remove
  cleared_run =
      let (s, at, named) = get_elem?-key_at i key p.slots (v.forth key i hit).0 in ground arith

  cleared_counted : decrement p.live ≡ pos (occupied (set p.slots i empty_slot))
  cleared_counted =
      let (s, at, named) = get_elem?-key_at i key p.slots (v.forth key i hit).0 in
      ground (arith, v.counted, (v.forth key i hit).1, occupied-set p.slots i s empty_slot at)

  cleared-IsValid : IsValid (cleared key i p)
  cleared-IsValid = record {
    sized = length-set p.slots i empty_slot ∙ v.sized;
    hand_in = v.hand_in;
    forth = λ k j h.
        let old : lookup key_dec k p.index ≡ some j =
          ground (arith, lookup-delete key_dec key k p.index) in
        let other : i ≢ j = λ e. ground (
          arith,
          lookup-delete key_dec key k p.index,
          (v.forth k j old).0,
          (v.forth key i hit).0,
        ) in
        (key_at-set_ne i j empty_slot p.slots other ∙ (v.forth k j old).0, (v.forth k j old).1);
    back = λ k j h real. elim (ℕ_discrete i j) [
      | yes e ↦ ground (
        arith,
        real,
        key_at-set_self i empty_slot p.slots (key_at-lt i key p.slots (v.forth key i hit).0),
      )
      | no e ↦
          let old = v.back k j (sym (key_at-set_ne i j empty_slot p.slots e) ∙ h) real in
          ground (arith, lookup-delete key_dec key k p.index)
    ];
    counted = cleared_counted;
  }

pub on_remove-IsValid :
    (key : Key) (p : Clock)
    → IsValid p
    → Returns
        (on_remove key p)
        (λ p'. IsValid p' × ((j : Key) → tracks p' j ≡ ite (key_dec key j) false (tracks p j)))
unfolding on_remove
on_remove-IsValid key p v = elim (Option-cases (lookup key_dec key p.index)) [
  | inl miss ↦ (p, ground arith, (v, λ j. ground arith))
  | inr (i, hit) ↦ (
    cleared key i p,
    cleared_run key i p v hit,
    (cleared-IsValid key i p v hit, λ j. ground (arith, lookup-delete key_dec key j p.index)),
  )
]
