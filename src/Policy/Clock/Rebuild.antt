-- ===== src/Policy/Clock/Rebuild.antt =====
-- Rebuild of cache/policy/clock.go.
use adaptive_caching.Base.{
  ℕ, zero, suc, ◌+◌, ◌*◌, ◌<◌, ◌≤◌, ◌≡◌, ◌≢◌, ◌∙◌, sym, refl, ap, inl, inr, true, false, List, [],
  ◌∷◌, none, some, arith, ite, Key, key_dec, length, replicate, length-replicate, ltb,
  if◌then◌else◌, Bool-cases, lookup, done, ◌>>=◌, Returns, pos,
}
use adaptive_caching.Types.{Entry}
use adaptive_caching.Policy.{AreDistinct, listed}
use adaptive_caching.Policy.Clock.{Slot, Clock, empty_slot, is_free, adopt, fit_cap, rebuild}
use adaptive_caching.Policy.Clock.Ring.{key_at, get_elem?-key_at, key_at-set_ne}
use adaptive_caching.Policy.Clock.Invariant.{
  IsValid, tracks, placed, place_run, placed-IsValid, tracks-placed,
}
use adaptive_caching.Policy.Clock.Growth.{key_at-replicate, occupied-replicate}

-- The doubling loop ends with a capacity that is large enough.
fit_cap-le :
    (f cap n : ℕ) → 0 < cap → n ≤ cap + f → Returns (fit_cap (suc f) cap n) (λ c. (n ≤ c) × (0 < c))
unfolding fit_cap
fit_cap-le zero cap n h b = (cap, ground arith, (omega (arith, b), h))
fit_cap-le (suc f) cap n h b = elim (Bool-cases (ltb cap n)) [
  | inl small ↦
      let (c, ran, rest) = fit_cap-le f (cap * 2) n (omega (arith, h)) (omega (arith, h, b)) in
      (c, ground arith, rest)
  | inr fits ↦ (cap, ground arith, (ground arith, h))
]

-- The slots from a position on are empty.
abbrev AreEmpty : ℕ → Clock → Type 0
AreEmpty i p = (j : ℕ) → i ≤ j → j < p.cap → key_at j p.slots ≡ some ""

abbrev AreNew : List Entry → Clock → Type 0
AreNew es p = (j : Key) → listed j es ≡ true → tracks p j ≡ false

abbrev slot_of : Entry → Slot
slot_of e = record { key = e.key; ref = false; e = e.addr }

-- Every entry that is listed is adopted.
abbrev Adopted : List Entry → Clock → Clock → Type 0
Adopted es p p' =
    IsValid p' × ((j : Key) → tracks p' j ≡ (if listed j es then true else tracks p j))

-- One round of the loop.
module _ (i : ℕ) (e : Entry) (es : List Entry) (p : Clock) (v : IsValid p) (room : suc i ≤ p.cap)
    (empty : AreEmpty i p) (real : e.key ≢ "") (new : AreNew (e ∷ es) p) where
  adopt_next :
      listed e.key es ≡ false
      → ((p' : Clock)
          → IsValid p'
          → p'.cap ≡ p.cap
          → AreEmpty (suc i) p'
          → AreNew es p'
          → Returns (adopt (suc i) es p') (Adopted es p'))
      → Returns (adopt i (e ∷ es) p) (Adopted (e ∷ es) p)
  unfolding adopt
  adopt_next once others =
      let (s, at, named) = get_elem?-key_at i "" p.slots (empty i (omega arith) room) in
      let free : is_free s ≡ true = ground arith in
      let busy : is_free (slot_of e) ≡ false = ground arith in
      let miss : lookup key_dec e.key p.index ≡ none = ground (arith, new e.key) in
      let p' = placed i (slot_of e) p in
      let tracked : (j : Key) → tracks p' j ≡ ite (key_dec e.key j) true (tracks p j) =
        tracks-placed i s (slot_of e) p v at free busy in
      let (r, ran, (v', all)) =
        others p' (placed-IsValid i s (slot_of e) p v at free busy miss) refl
          (λ j b lt.
            key_at-set_ne i j (slot_of e) p.slots (λ q. omega (arith, b, q))
            ∙ empty j (omega (arith, b)) lt)
          (λ j h. ground (arith, tracked j, new j)) in
      (
        r,
        ap (λ q. q >>= adopt (suc i) es) (place_run i s (slot_of e) p v at free busy) ∙ ran,
        (v', λ j. ground (arith, all j, tracked j)),
      )

adopt-Adopted :
    (i : ℕ) (es : List Entry) (p : Clock)
    → IsValid p
    → i + length es ≤ p.cap
    → AreEmpty i p
    → AreDistinct (λ k. k ≢ "") es
    → AreNew es p
    → Returns (adopt i es p) (Adopted es p)
unfolding adopt
adopt-Adopted i [] p v room empty d new = (p, refl, (v, λ j. refl))
adopt-Adopted i (e ∷ es) p v room empty d new =
    adopt_next i e es p v (omega (arith, room)) empty d.0 new d.1 (λ p' v' cap empty' new'.
      adopt-Adopted (suc i) es p' v' (omega (arith, room, cap)) empty' d.2 new')

-- A new ring.
abbrev blank : ℕ → Clock
blank cap = record {
  index = [];
  slots = replicate cap empty_slot;
  hand = 0;
  cap = cap;
  live = pos 0;
}

blank-IsValid : (cap : ℕ) → IsValid (blank cap)
unfolding lookup
blank-IsValid cap = record {
  sized = length-replicate cap empty_slot;
  hand_in = λ h. h;
  forth = λ k i h. absurd (ground arith);
  back = λ k i h real. absurd (real (key_at-replicate i cap k h));
  counted = ap pos (sym (occupied-replicate cap));
}

key_at-blank : (j cap : ℕ) → j < cap → key_at j (replicate cap empty_slot) ≡ some ""
key_at-blank j zero h = absurd (omega (arith, h))
key_at-blank zero (suc cap) h = refl
key_at-blank (suc j) (suc cap) h = key_at-blank j cap (omega (arith, h))

-- Rebuild from entries with different keys, none of them "", returns and tracks exactly their keys.
pub rebuild-IsValid :
    (es : List Entry) (p : Clock)
    → AreDistinct (λ k. k ≢ "") es
    → Returns (rebuild es p) (λ p'. IsValid p' × ((j : Key) → tracks p' j ≡ listed j es))
unfolding rebuild lookup
rebuild-IsValid es p d =
    let (cap, sized, (fits, some_room)) =
      fit_cap-le (length es) 1 (length es) (omega arith) (omega arith) in
    let (r, ran, (v, tracked)) =
      adopt-Adopted 0 es (blank cap) (blank-IsValid cap) (omega (arith, fits))
        (λ j b lt. key_at-blank j cap lt) d (λ j h. refl) in
    (r, chain cap r sized ran, (v, λ j. ground (arith, tracked j)))
  where
    chain :
        (cap : ℕ) (r : Clock)
        → fit_cap (suc (length es)) 1 (length es) ≡ done cap
        → adopt 0 es (blank cap) ≡ done r
        → rebuild es p ≡ done r
    chain cap r sized ran = rw (sized, rebuild, ran) refl
