-- ===== src/Policy/Clock/Insertion.antt =====
-- OnInsert of cache/policy/clock.go.
use adaptive_caching.Base.{
  ℕ, zero, suc, ◌+◌, ◌<◌, ◌≤◌, ◌≡◌, ◌≢◌, ◌∙◌, refl, inl, inr, true, false, none, some, arith, ite,
  Key, key_dec, get_elem?, length, Bool-cases, Option-cases, lookup, done, ◌>>=◌, Returns,
}
use adaptive_caching.Types.{Entry}
use adaptive_caching.Policy.Clock.{Slot, Clock, is_free, advance, on_insert, place, grow, seek}
use adaptive_caching.Policy.Clock.Ring.{
  get_elem?-lt, lt-get_elem?, occupied, find_free, distance, distance-next, next-lt,
}
use adaptive_caching.Policy.Clock.Sweep.{moved}
use adaptive_caching.Policy.Clock.Invariant.{
  IsValid, tracks, touched, placed, place_run, placed-IsValid, tracks-placed, same_keys-IsValid,
}
use adaptive_caching.Policy.Clock.Growth.{grow-IsValid}

-- The hand is at a free slot.
abbrev IsAtFree : Clock → Clock → Type 0
IsAtFree p p' =
    (h : ℕ) × (p' ≡ record p { hand = h })
    × (h < p.cap)
    × (s : Slot) × (get_elem? p.slots h ≡ some s)
    × (is_free s ≡ true)

-- One step of the walk.
module _ (f steps : ℕ) (p : Clock) (t : Slot) (h : p.hand < p.cap)
    (under : get_elem? p.slots p.hand ≡ some t) where
  seek_ends : is_free t ≡ true → seek (suc f) steps p ≡ done p
  unfolding seek
  seek_ends free = ground arith

  seek_goes_on :
      is_free t ≡ false → suc steps ≤ p.cap → seek (suc f) steps p ≡ seek f (suc steps) (moved p)
  unfolding seek
  seek_goes_on busy few = ground arith

-- The walk ends, if it has fuel for the way to some free slot, and does not grow the ring.
seek-IsAtFree :
    (f steps : ℕ) (p : Clock) (j : ℕ) (s : Slot)
    → length p.slots ≡ p.cap
    → p.hand < p.cap
    → get_elem? p.slots j ≡ some s
    → is_free s ≡ true
    → distance p.cap p.hand j < f
    → steps + distance p.cap p.hand j ≤ p.cap
    → Returns (seek f steps p) (IsAtFree p)
seek-IsAtFree zero steps p j s sized h at free enough few = absurd (omega (arith, enough))
seek-IsAtFree (suc f) steps p j s sized h at free enough few =
    let (t, under) = get_elem?-lt p.hand p.slots (omega (arith, sized, h)) in
    let in_ring : j < p.cap = omega (arith, sized, lt-get_elem? j s p.slots at) in
    elim (Bool-cases (is_free t)) [
      | inl here ↦ (p, seek_ends f steps p t h under here, (p.hand, refl, h, t, under, here))
      | inr busy ↦
          let other : p.hand ≢ j = λ e. ground arith in
          let nearer = distance-next p.cap p.hand j h in_ring other in
          let (r, ran, found) =
            seek-IsAtFree f (suc steps) (moved p) j s sized (next-lt p.cap p.hand h) at free
              (omega (arith, enough, nearer)) (omega (arith, few, nearer)) in
          (r, seek_goes_on f steps p t h under busy (omega (arith, few, nearer)) ∙ ran, found)
    ]

-- The rest of OnInsert from a clock whose hand is at a free slot.
abbrev Inserted : Key → Clock → Clock → Type 0
Inserted key p p' = IsValid p' × ((j : Key) → tracks p' j ≡ ite (key_dec key j) true (tracks p j))

abbrev new_slot : Key → Entry → Slot
new_slot key e = record { key = key; ref = true; e = e.addr }

module _ (key : Key) (e : Entry) (real : key ≢ "") (p : Clock) (v : IsValid p)
    (miss : lookup key_dec key p.index ≡ none) where
  new_slot_busy : is_free (new_slot key e) ≡ false
  new_slot_busy = ground arith

  Inserted-at :
      (h : ℕ) (s : Slot)
      → h < p.cap
      → get_elem? p.slots h ≡ some s
      → is_free s ≡ true
      → Returns (place h (new_slot key e) (record p { hand = h }) >>= advance) (Inserted key p)
  Inserted-at h s lt at free =
      let p₁ : Clock = record p { hand = h } in
      let v₁ : IsValid p₁ = same_keys-IsValid p p₁ v refl refl refl (λ i. refl) refl (λ _. lt) in
      let p₂ = placed h (new_slot key e) p₁ in
      let v₂ : IsValid p₂ = placed-IsValid h s (new_slot key e) p₁ v₁ at free new_slot_busy miss in
      (
        moved p₂,
        ground (arith, place_run h s (new_slot key e) p₁ v₁ at free new_slot_busy),
        (
          same_keys-IsValid p₂ (moved p₂) v₂ refl refl refl (λ i. refl) refl
              (λ _. next-lt p.cap h lt),
          λ j. tracks-placed h s (new_slot key e) p₁ v₁ at free new_slot_busy j,
        ),
      )

  -- The walk and what follows, from a ring with a free slot.
  walked :
      occupied p.slots < p.cap
      → Returns
          (seek (suc p.cap) 0 p >>= λ q. place q.hand (new_slot key e) q >>= advance)
          (Inserted key p)
  walked room =
      let lt : p.hand < p.cap = v.hand_in (omega (arith, room)) in
      let (j, s, at, free) = find_free p.slots (omega (arith, room, v.sized)) in
      let in_ring : j < p.cap = omega (arith, v.sized, lt-get_elem? j s p.slots at) in
      let near : distance p.cap p.hand j < p.cap = ground arith in
      let (q, ran, (h, same, lt', t, at', free')) =
        seek-IsAtFree (suc p.cap) 0 p j s v.sized lt at free (omega (arith, near))
          (omega (arith, near)) in
      let (r, ran', done') = Inserted-at h t lt' at' free' in (r, chain q h ran same ∙ ran', done')
    where
      chain :
          (q : Clock) (h : ℕ)
          → seek (suc p.cap) 0 p ≡ done q
          → q ≡ record p { hand = h }
          → (seek (suc p.cap) 0 p >>= λ q. place q.hand (new_slot key e) q >>= advance)
            ≡ (place h (new_slot key e) (record p { hand = h }) >>= advance)
      chain q h ran same = rw (ran, same) refl

-- OnInsert of a key other than "" returns, and tracks the key and what was tracked before.
pub on_insert-IsValid :
    (key : Key) (e : Entry) (p : Clock)
    → IsValid p
    → key ≢ ""
    → Returns
        (on_insert key e p)
        (λ p'. IsValid p' × ((j : Key) → tracks p' j ≡ ite (key_dec key j) true (tracks p j)))
unfolding on_insert
on_insert-IsValid key e p v real = elim (Option-cases (lookup key_dec key p.index)) [
  | inr (i, hit) ↦
      let (slots, ran, v') =
        touched p v key i hit (λ s. record s { ref = true; e = e.addr }) (λ s. refl) in
      (record p { slots = slots }, ground arith, (v', λ j. ground arith))
  | inl miss ↦
      let (p', ran, (v', room, kept)) = grow-IsValid p v in
      let (r, ran', (v'', tracked)) = walked key e real p' v' (kept key ∙ miss) room in
      (r, after_grow p' r miss ran ran', (v'', λ j. ground (arith, tracked j, kept j)))
]
  where
    after_grow :
        (p' r : Clock)
        → lookup key_dec key p.index ≡ none
        → grow p ≡ done p'
        → (seek (suc p'.cap) 0 p' >>= λ q. place q.hand (new_slot key e) q >>= advance) ≡ done r
        → on_insert key e p ≡ done r
    after_grow p' r miss ran ran' = rw (miss, on_insert, ran, ran') refl
